-- ===== src/Organization/Panics/Updating.antt =====
-- `Update` of a resource with a storage configuration does not panic.
use custome_provider_mongo_d.Organization.Observe.{desired_storage_type}
use custome_provider_mongo_d.Prelude.{String, Option, none, some, List, [], ◌∷◌, Bool, ◌≡◌}
use custome_provider_mongo_d.Go.Exec.{Result, ok, err}
use custome_provider_mongo_d.Go.Keeps.{Keeps-wrap}
use custome_provider_mongo_d.Go.Panics.{
  NeverPanics, NeverPanics-bind, PanicsNot, PanicsNot-bind, PanicsNot-first, PanicsNot-if,
  NeverPanics-PanicsNot,
}
use custome_provider_mongo_d.Api.Organization.{
  SecretStorageConfig, AwsSecretsManagerReference, Time,
}
use custome_provider_mongo_d.Mongo.Service.{Credentials}
use custome_provider_mongo_d.Organization.Platform.{Platform, External, call}
use custome_provider_mongo_d.Organization.Shows.{shows_rules, fetch-Shows}
use custome_provider_mongo_d.Organization.Panics.{
  call_rules, update_status-NeverPanics, fetch-NeverPanics, store-NeverPanics,
  delete_k8s-NeverPanics, resolve-NeverPanics,
}
use custome_provider_mongo_d.Organization.Panics.Creating.{Configured}
use custome_provider_mongo_d.Organization.Update.{
  update, update_org, migrate, migrate_from, migrate_to_kubernetes, migrate_to_aws,
  migrate_to_aws_as, migrate_with, delete_old_aws_secret, described, assigned, describe_key,
  assign_roles, update_found_key, update_key, enforced, update_enforcement, note_add_error,
  add_missing, remove_surplus, sync_ips, sync_found, update_ips,
}

module _ (p : Platform) (c : External) where
  delete_old-NeverPanics :
      (region : Option String) (current : String)
      → NeverPanics (delete_old_aws_secret p c region current)
  delete_old-NeverPanics none current = search call_rules
  delete_old-NeverPanics (some region) current = search call_rules depth 9

  to_kubernetes-NeverPanics :
      (current : String) (creds : Credentials)
      → NeverPanics (migrate_to_kubernetes p c current creds)
  unfolding migrate_to_kubernetes
  to_kubernetes-NeverPanics current creds =
      search (call_rules, store-NeverPanics, delete_old-NeverPanics) depth 9

  migrate_with-NeverPanics :
      (region : String) (given : Option AwsSecretsManagerReference) (org_id current : String)
      (creds : Credentials)
      → NeverPanics (migrate_with p c region given org_id current creds)
  migrate_with-NeverPanics region none org_id current creds = search call_rules
  migrate_with-NeverPanics region (some given) org_id current creds =
      search (call_rules, delete_k8s-NeverPanics) depth 12

  to_aws_as-NeverPanics :
      (region : Option String) (config : SecretStorageConfig) (org_id current : String)
      (creds : Credentials)
      → NeverPanics (migrate_to_aws_as p c region (some config) org_id current creds)
  to_aws_as-NeverPanics none config org_id current creds = search call_rules
  to_aws_as-NeverPanics (some region) config org_id current creds =
      migrate_with-NeverPanics region config.aws org_id current creds

  to_aws_given-NeverPanics :
      (given : Option SecretStorageConfig) (config : SecretStorageConfig) (org_id current : String)
      (creds : Credentials)
      → given ≡ some config
      → NeverPanics (migrate_to_aws_as p c c.aws_region given org_id current creds)
  to_aws_given-NeverPanics given config org_id current creds same =
      rw same (to_aws_as-NeverPanics c.aws_region config org_id current creds)

  described-NeverPanics : (r : Result (Unit {0})) → NeverPanics (described p c r)
  described-NeverPanics (ok u) = search call_rules
  described-NeverPanics (err e) = search call_rules

  assigned-NeverPanics :
      (roles : List String) (r : Result (Unit {0})) → NeverPanics (assigned p c roles r)
  assigned-NeverPanics roles (ok u) = search call_rules
  assigned-NeverPanics roles (err e) = search call_rules

  found_key-NeverPanics :
      (creds : Credentials) (org_id : String) (found : Option String)
      → NeverPanics (update_found_key p c creds org_id found)
  unfolding describe_key assign_roles
  found_key-NeverPanics creds org_id none = search call_rules
  found_key-NeverPanics creds org_id (some key_id) =
      search (call_rules, described-NeverPanics, assigned-NeverPanics) depth 14

  enforced-NeverPanics :
      (desired : Bool) (now : Time) (r : Result (Unit {0}))
      → NeverPanics (enforced p c desired now r)
  enforced-NeverPanics desired now (ok u) = search call_rules
  enforced-NeverPanics desired now (err e) = search call_rules

  note-NeverPanics : (r : Result (Unit {0})) → NeverPanics (note_add_error p c r)
  note-NeverPanics (ok u) = search call_rules
  note-NeverPanics (err e) = search call_rules

  add_missing-NeverPanics :
      (creds : Credentials) (org_id key_id : String) (ips : List String)
      → NeverPanics (add_missing p c creds org_id key_id ips)
  unfolding add_missing
  add_missing-NeverPanics creds org_id key_id [] = search call_rules
  add_missing-NeverPanics creds org_id key_id (ip ∷ ips) =
      search (call_rules, note-NeverPanics) depth 9

  surplus-NeverPanics :
      (creds : Credentials) (org_id key_id : String) (ips : List String)
      → NeverPanics (remove_surplus p c creds org_id key_id ips)
  unfolding remove_surplus
  surplus-NeverPanics creds org_id key_id [] = search call_rules
  surplus-NeverPanics creds org_id key_id (ip ∷ ips) =
      NeverPanics-bind _ _ (search call_rules) (λ _. surplus-NeverPanics creds org_id key_id ips)

  sync_found-NeverPanics :
      (creds : Credentials) (org_id : String) (now : Time) (found : Option String)
      → NeverPanics (sync_found p c creds org_id now found)
  unfolding sync_ips
  sync_found-NeverPanics creds org_id now none = search call_rules
  sync_found-NeverPanics creds org_id now (some key_id) =
      search (call_rules, add_missing-NeverPanics, surplus-NeverPanics) depth 14

  module _ {config : SecretStorageConfig} where
    to_aws-PanicsNot :
        (org_id current : String) (creds : Credentials)
        → PanicsNot (Configured config) (migrate_to_aws p c org_id current creds)
    unfolding migrate_to_aws call
    to_aws-PanicsNot org_id current creds = record {
      at = λ s h. (to_aws_given-NeverPanics _ config org_id current creds h.same).at s;
    }

    from-PanicsNot :
        (current desired org_id : String) (creds : Credentials)
        → PanicsNot (Configured config) (migrate_from p c current desired org_id creds)
    from-PanicsNot current desired org_id creds =
        search
          (
            PanicsNot-if, NeverPanics-PanicsNot, to_kubernetes-NeverPanics, to_aws-PanicsNot,
            call_rules,
          )
          depth 9

    migrate-PanicsNot :
        (org_id : String) (creds : Credentials)
        → PanicsNot (Configured config) (migrate p c org_id creds)
    unfolding migrate
    migrate-PanicsNot org_id creds =
        PanicsNot-bind _ _ (search call_rules) (search shows_rules) (λ cr.
          from-PanicsNot cr.status.at_provider.secret_storage_type
            (desired_storage_type cr.spec.for_provider.secret_storage_config) org_id creds)

    update_org-PanicsNot : (org_id : String) → PanicsNot (Configured config) (update_org p c org_id)
    unfolding update_org update_key update_enforcement update_ips
    update_org-PanicsNot org_id =
        PanicsNot-bind _ _ (search call_rules) (search shows_rules) (λ now.
          PanicsNot-bind _ _ (search call_rules) (search shows_rules) (λ cr.
            PanicsNot-bind _ _ (search (call_rules, fetch-NeverPanics))
              (Keeps-wrap _ _ (fetch-Shows p c cr))
              (λ creds. PanicsNot-first _ _ (migrate-PanicsNot org_id creds) (λ migrated.
                search
                  (
                    call_rules, resolve-NeverPanics, found_key-NeverPanics, enforced-NeverPanics,
                    sync_found-NeverPanics, update_status-NeverPanics,
                  )
                  depth 14))))

    pub update-PanicsNot : PanicsNot (Configured config) (update p c)
    unfolding update
    update-PanicsNot =
        PanicsNot-bind _ _ (search call_rules) (search shows_rules)
          (λ cr. search (PanicsNot-if, NeverPanics-PanicsNot, update_org-PanicsNot, call_rules))
