-- ===== src/Organization/Panics/Creating.antt =====
-- `Create` of a resource with a storage configuration does not panic.
use custome_provider_mongo_d.Prelude.{◌≡◌, String, Option, none, some, List, [], ◌∷◌}
use custome_provider_mongo_d.Go.Exec.{Result, ok, err}
use custome_provider_mongo_d.Go.Keeps.{Keeps}
use custome_provider_mongo_d.Go.Panics.{
  NeverPanics, PanicsNot, PanicsNot-bind, PanicsNot-first, PanicsNot-if, NeverPanics-PanicsNot,
}
use custome_provider_mongo_d.Api.Organization.{
  Organization, SecretStorageConfig, AwsSecretsManagerReference, IpAccessEntry,
}
use custome_provider_mongo_d.Mongo.Service.{ApiKeyPair, Organization as AtlasOrganization}
use custome_provider_mongo_d.Organization.Platform.{Platform, External, State, call}
use custome_provider_mongo_d.Organization.Status.{
  PersistMessages, after_update, persist_external_name, with_external_name,
}
use custome_provider_mongo_d.Organization.Shows.{Shows, shows_rules}
use custome_provider_mongo_d.Organization.Network.{
  provision_with, provision_ip_access, enable_api_access_list_required,
}
use custome_provider_mongo_d.Organization.Panics.{
  call_rules, update_status-NeverPanics, persist-NeverPanics, store-NeverPanics,
  resolve-NeverPanics,
}
use custome_provider_mongo_d.Organization.Create.{
  create, create_cr, create_checked, create_unless_found, create_new, finish_creation,
  record_created, store_api_key, store_by, store_in_aws, provision_new, enforce_new, create_restore,
  create_reuse,
}

-- The spec has this storage configuration.
abbrev pub Configured : SecretStorageConfig → State → Type 0
Configured config = Shows (λ o. o.spec.for_provider.secret_storage_config) (some config)

module _ (p : Platform) (c : External) where
  in_aws-NeverPanics :
      (region : Option String) (given : Option AwsSecretsManagerReference) (org : AtlasOrganization)
      (key : ApiKeyPair)
      → NeverPanics (store_in_aws p c region given org key)
  in_aws-NeverPanics none given org key = search call_rules
  in_aws-NeverPanics (some region) none org key = search call_rules
  in_aws-NeverPanics (some region) (some given) org key = search call_rules depth 9

  store_by-NeverPanics :
      (cr : Organization) (config : SecretStorageConfig) (org : AtlasOrganization)
      (key : ApiKeyPair)
      → NeverPanics (store_by p c cr (some config) org key)
  store_by-NeverPanics cr config org key =
      search (call_rules, store-NeverPanics, in_aws-NeverPanics) depth 9

  store_given-NeverPanics :
      (cr : Organization) (given : Option SecretStorageConfig) (config : SecretStorageConfig)
      (org : AtlasOrganization) (key : ApiKeyPair)
      → given ≡ some config
      → NeverPanics (store_by p c cr given org key)
  store_given-NeverPanics cr given config org key same =
      rw same (store_by-NeverPanics cr config org key)

  provision_with-NeverPanics :
      (org_id : String) (entries : List IpAccessEntry) (key : ApiKeyPair) (found : Option String)
      → NeverPanics (provision_with p org_id entries key found)
  provision_with-NeverPanics org_id entries key none = search call_rules
  provision_with-NeverPanics org_id entries key (some key_id) = search call_rules depth 9

  provision-NeverPanics :
      (org_id : String) (entries : List IpAccessEntry) (key : ApiKeyPair)
      → NeverPanics (provision_ip_access p org_id entries key)
  unfolding provision_ip_access
  provision-NeverPanics org_id [] key = search call_rules
  provision-NeverPanics org_id (e ∷ entries) key =
      search (call_rules, resolve-NeverPanics, provision_with-NeverPanics)

  record_created-NeverPanics :
      (org : AtlasOrganization) (key : ApiKeyPair) → NeverPanics (record_created p c org key)
  unfolding record_created
  record_created-NeverPanics org key = search (call_rules, persist-NeverPanics) depth 9

  reuse-NeverPanics : (org : AtlasOrganization) → NeverPanics (create_reuse p c org)
  unfolding create_reuse
  reuse-NeverPanics org = search (call_rules, persist-NeverPanics) depth 12

  restore-NeverPanics : (id : String) → NeverPanics (create_restore p c id)
  unfolding create_restore
  restore-NeverPanics id = search (call_rules, persist-NeverPanics)

  module _ {config : SecretStorageConfig} where
    after_update-Configured :
        (m : PersistMessages) (name id : String) (r : Result Organization)
        → Keeps (Configured config) (after_update p m name id r)
    after_update-Configured m name id (ok latest) = search shows_rules
    after_update-Configured m name id (err e) = search shows_rules

    record_created-Configured :
        (org : AtlasOrganization) (key : ApiKeyPair)
        → Keeps (Configured config) (record_created p c org key)
    unfolding record_created persist_external_name with_external_name
    record_created-Configured org key = search (shows_rules, after_update-Configured) depth 14

    store-PanicsNot :
        (org : AtlasOrganization) (key : ApiKeyPair)
        → PanicsNot (Configured config) (store_api_key p c org key)
    unfolding store_api_key call
    store-PanicsNot org key = record {
      at = λ s h. (store_given-NeverPanics s.cr _ config org key h.same).at s;
    }

    finish-PanicsNot :
        (org : AtlasOrganization) (key : ApiKeyPair)
        → PanicsNot (Configured config) (finish_creation p c org key)
    unfolding finish_creation provision_new enforce_new enable_api_access_list_required
    finish-PanicsNot org key =
        PanicsNot-bind _ _ (record_created-NeverPanics org key) (record_created-Configured org key)
          (λ u.
            PanicsNot-first _ _ (store-PanicsNot org key) (λ arn.
              search (call_rules, provision-NeverPanics, update_status-NeverPanics) depth 14))

    new-PanicsNot : (cr : Organization) → PanicsNot (Configured config) (create_new p c cr)
    unfolding create_new
    new-PanicsNot cr =
        PanicsNot-bind _ _ (search call_rules) (search shows_rules)
          (λ made. finish-PanicsNot made.0 made.1)

    unless_found-PanicsNot :
        (cr : Organization) (r : Result (Option AtlasOrganization))
        → PanicsNot (Configured config) (create_unless_found p c cr r)
    unless_found-PanicsNot cr (ok none) = new-PanicsNot cr
    unless_found-PanicsNot cr (ok (some org)) = NeverPanics-PanicsNot _ (reuse-NeverPanics org)
    unless_found-PanicsNot cr (err e) =
        search (PanicsNot-if, NeverPanics-PanicsNot, new-PanicsNot, call_rules)

    checked-PanicsNot : (cr : Organization) → PanicsNot (Configured config) (create_checked p c cr)
    unfolding create_checked
    checked-PanicsNot cr =
        PanicsNot-bind _ _ (search call_rules) (search shows_rules) (unless_found-PanicsNot cr)

    cr-PanicsNot : (cr : Organization) → PanicsNot (Configured config) (create_cr p c cr)
    cr-PanicsNot cr =
        search
          (PanicsNot-if, NeverPanics-PanicsNot, restore-NeverPanics, checked-PanicsNot, call_rules)

    pub create-PanicsNot : PanicsNot (Configured config) (create p c)
    unfolding create
    create-PanicsNot = PanicsNot-bind _ _ (search call_rules) (search shows_rules) cr-PanicsNot
