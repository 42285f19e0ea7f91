-- ===== src/Organization/Reconcile/Updating.antt =====
-- `Update` keeps the fields of a status in agreement.
use custome_provider_mongo_d.Prelude.{
  ◌≡◌, map, arith, ap, suc, refl, Bool, true, String, Option, none, some, List, [], ◌∷◌,
}
use custome_provider_mongo_d.Mongo.Service.{Credentials}
use custome_provider_mongo_d.Go.Exec.{Result, ok, err}
use custome_provider_mongo_d.Go.Keeps.{Keeps, Keeps-bind}
use custome_provider_mongo_d.Organization.Reconcile.{KeepsStatus, consistent}
use custome_provider_mongo_d.Organization.Reconcile.Rules.{Agrees, agree_rules, Keeps-record}
use custome_provider_mongo_d.Api.Organization.{
  IpAccessEntry, OrganizationObservation, SecretStorageConfig, AwsSecretsManagerReference, Time,
}
use custome_provider_mongo_d.Organization.Observe.{set_at_provider}
use custome_provider_mongo_d.Prelude.Lists.{length}
use custome_provider_mongo_d.Organization.Platform.{Platform, External}
use custome_provider_mongo_d.Organization.Reconcile.Steps.{
  store-Agrees, resolve-Agrees, update_status-Agrees, fetch-Agrees, delete_k8s-Agrees,
}
use custome_provider_mongo_d.Organization.Update.{
  migrate_to_kubernetes, migrate, migrate_to_aws, put_migrated, migrate_to_aws_as,
  delete_old_aws_secret, assigned, note_add_error, update_org, described, assign_roles,
  remove_surplus, add_missing, update, describe_key, update_ips, update_key, sync_ips,
  update_found_key, update_enforcement, sync_found, provisioned_entry, enforced, migrate_with,
}

module _ (p : Platform) (c : External) (kept : KeepsStatus p) where
  delete_old-Agrees :
      (region : Option String) (current : String)
      → Keeps (Agrees p) (delete_old_aws_secret p c region current)
  delete_old-Agrees none current = search agree_rules
  delete_old-Agrees (some region) current = search agree_rules depth 9

  to_kubernetes-Agrees :
      (current : String) (creds : Credentials)
      → Keeps (Agrees p) (migrate_to_kubernetes p c current creds)
  unfolding migrate_to_kubernetes
  to_kubernetes-Agrees current creds = search (agree_rules, store-Agrees, delete_old-Agrees) depth 9

  put_migrated-Agrees :
      (region : String) (config : AwsSecretsManagerReference) (org_id current : String)
      (creds : Credentials)
      → Keeps (Agrees p) (put_migrated p c region config org_id current creds)
  put_migrated-Agrees region config org_id current creds =
      search (agree_rules, delete_k8s-Agrees) depth 9

  migrate_with-Agrees :
      (region : String) (config : Option AwsSecretsManagerReference) (org_id current : String)
      (creds : Credentials)
      → Keeps (Agrees p) (migrate_with p c region config org_id current creds)
  migrate_with-Agrees region none org_id current creds = search agree_rules
  migrate_with-Agrees region (some config) org_id current creds = search put_migrated-Agrees

  to_aws_as-Agrees :
      (region : Option String) (config : Option SecretStorageConfig) (org_id current : String)
      (creds : Credentials)
      → Keeps (Agrees p) (migrate_to_aws_as p c region config org_id current creds)
  to_aws_as-Agrees none config org_id current creds = search agree_rules
  to_aws_as-Agrees (some region) none org_id current creds = search agree_rules
  to_aws_as-Agrees (some region) (some config) org_id current creds =
      migrate_with-Agrees region config.aws org_id current creds

  migrate-Agrees :
      (org_id : String) (creds : Credentials) → Keeps (Agrees p) (migrate p c org_id creds)
  unfolding migrate migrate_to_aws
  migrate-Agrees org_id creds = search (agree_rules, to_kubernetes-Agrees, to_aws_as-Agrees) depth 9

  described-Agrees : (r : Result (Unit {0})) → Keeps (Agrees p) (described p c r)
  described-Agrees (ok u) = search agree_rules
  described-Agrees (err e) = search agree_rules

  assigned-Agrees :
      (roles : List String) (r : Result (Unit {0})) → Keeps (Agrees p) (assigned p c roles r)
  assigned-Agrees roles (ok u) = search agree_rules
  assigned-Agrees roles (err e) = search agree_rules

  describe_key-Agrees :
      (creds : Credentials) (org_id key_id : String)
      → Keeps (Agrees p) (describe_key p c creds org_id key_id)
  unfolding describe_key
  describe_key-Agrees creds org_id key_id = search (agree_rules, described-Agrees) depth 9

  assign_roles-Agrees :
      (creds : Credentials) (org_id key_id : String)
      → Keeps (Agrees p) (assign_roles p c creds org_id key_id)
  unfolding assign_roles
  assign_roles-Agrees creds org_id key_id = search (agree_rules, assigned-Agrees) depth 9

  update_found_key-Agrees :
      (creds : Credentials) (org_id : String) (found : Option String)
      → Keeps (Agrees p) (update_found_key p c creds org_id found)
  update_found_key-Agrees creds org_id none = search agree_rules
  update_found_key-Agrees creds org_id (some key_id) =
      search (agree_rules, describe_key-Agrees, assign_roles-Agrees) depth 9

  update_key-Agrees :
      (org_id : String) (creds : Credentials) → Keeps (Agrees p) (update_key p c org_id creds)
  unfolding update_key
  update_key-Agrees org_id creds =
      search (agree_rules, resolve-Agrees, update_found_key-Agrees) depth 9

  toggled-consistent :
      (desired : Bool) (now : Time) (o : OrganizationObservation)
      → consistent o ≡ true
      → consistent (record o {
        api_access_list_required = some desired;
        last_enforcement_toggle_time = some now;
        enforcement_error = "";
      })
        ≡ true
  toggled-consistent desired now o h = ground (arith, h)

  enforced-Agrees :
      (desired : Bool) (now : Time) (r : Result (Unit {0}))
      → Keeps (Agrees p) (enforced p c desired now r)
  enforced-Agrees desired now (ok u) =
      Keeps-bind _ _ (Keeps-record _ (toggled-consistent desired now)) (λ _. search agree_rules)
  enforced-Agrees desired now (err e) = search agree_rules

  update_enforcement-Agrees :
      (org_id : String) (creds : Credentials) (now : Time)
      → Keeps (Agrees p) (update_enforcement p c org_id creds now)
  unfolding update_enforcement
  update_enforcement-Agrees org_id creds now = search (agree_rules, enforced-Agrees) depth 9

  note_add_error-Agrees : (r : Result (Unit {0})) → Keeps (Agrees p) (note_add_error p c r)
  note_add_error-Agrees (ok u) = search agree_rules
  note_add_error-Agrees (err e) = search agree_rules

  add_missing-Agrees :
      (creds : Credentials) (org_id key_id : String) (ips : List String)
      → Keeps (Agrees p) (add_missing p c creds org_id key_id ips)
  unfolding add_missing
  add_missing-Agrees creds org_id key_id [] = search agree_rules
  add_missing-Agrees creds org_id key_id (ip ∷ ips) =
      search (agree_rules, note_add_error-Agrees) depth 9

  remove_surplus-Agrees :
      (creds : Credentials) (org_id key_id : String) (ips : List String)
      → Keeps (Agrees p) (remove_surplus p c creds org_id key_id ips)
  unfolding remove_surplus
  remove_surplus-Agrees creds org_id key_id [] = search agree_rules
  remove_surplus-Agrees creds org_id key_id (ip ∷ ips) =
      Keeps-bind _ _ (search agree_rules) (λ _. remove_surplus-Agrees creds org_id key_id ips)

  length-entries :
      (now : Time) (ips : List IpAccessEntry)
      → length (map (provisioned_entry now) ips) ≡ length ips
  length-entries now [] = refl
  length-entries now (e ∷ ips) = ap suc (length-entries now ips)

  synced-consistent :
      (ips : List IpAccessEntry) (now : Time) (o : OrganizationObservation)
      → consistent o ≡ true
      → consistent (record o {
        provisioned_ips = map (provisioned_entry now) ips;
        ip_access_entry_count = length ips;
        ip_access_error = "";
        last_ip_access_update = some now;
      })
        ≡ true
  synced-consistent ips now o h = ground (arith, h, length-entries now ips)

  synced-Agrees :
      (ips : List IpAccessEntry) (now : Time)
      → Keeps (Agrees p) (
          set_at_provider (λ o. record o {
            provisioned_ips = map (provisioned_entry now) ips;
            ip_access_entry_count = length ips;
            ip_access_error = "";
            last_ip_access_update = some now;
          }))
  synced-Agrees ips now = Keeps-record _ (synced-consistent ips now)

  sync_ips-Agrees :
      (creds : Credentials) (org_id key_id : String) (now : Time)
      → Keeps (Agrees p) (sync_ips p c creds org_id key_id now)
  unfolding sync_ips
  sync_ips-Agrees creds org_id key_id now =
      search (agree_rules, add_missing-Agrees, remove_surplus-Agrees, synced-Agrees) depth 14

  sync_found-Agrees :
      (creds : Credentials) (org_id : String) (now : Time) (found : Option String)
      → Keeps (Agrees p) (sync_found p c creds org_id now found)
  sync_found-Agrees creds org_id now none = search agree_rules
  sync_found-Agrees creds org_id now (some key_id) = search sync_ips-Agrees

  update_ips-Agrees :
      (org_id : String) (creds : Credentials) (now : Time)
      → Keeps (Agrees p) (update_ips p c org_id creds now)
  unfolding update_ips
  update_ips-Agrees org_id creds now =
      search (agree_rules, resolve-Agrees, sync_found-Agrees) depth 9

  update_org-Agrees : (org_id : String) → Keeps (Agrees p) (update_org p c org_id)
  unfolding update_org
  update_org-Agrees org_id =
      search
        (
          agree_rules, fetch-Agrees, migrate-Agrees, update_key-Agrees, update_enforcement-Agrees,
          update_ips-Agrees, update_status-Agrees, kept,
        )
        depth 14

  pub update-Agrees : Keeps (Agrees p) (update p c)
  unfolding update
  update-Agrees = search (agree_rules, update_org-Agrees) depth 9
