-- ===== src/Organization/Reconcile/Creation.antt =====
-- The steps of `Create` keep the fields of a status in agreement.
use custome_provider_mongo_d.Prelude.{◌≡◌, List, [], ◌∷◌, String, Option, none, some, arith, true}
use custome_provider_mongo_d.Go.Exec.{Result, ok, err}
use custome_provider_mongo_d.Go.Keeps.{Keeps, Keeps-bind}
use custome_provider_mongo_d.Mongo.Service.{ApiKeyPair, Organization as AtlasOrganization}
use custome_provider_mongo_d.Organization.Platform.{Platform, External}
use custome_provider_mongo_d.Organization.Status.{with_external_name}
use custome_provider_mongo_d.Organization.Reconcile.{KeepsStatus, consistent}
use custome_provider_mongo_d.Organization.Reconcile.Rules.{Agrees, agree_rules, Keeps-record}
use custome_provider_mongo_d.Organization.Observe.{set_at_provider}
use custome_provider_mongo_d.Organization.Reconcile.Observing.{adopt-Agrees, save_adopted}
use custome_provider_mongo_d.Api.Organization.{
  organization_state_active, Organization, OrganizationObservation, SecretStorageConfig,
  AwsSecretsManagerReference, IpAccessEntry, Time,
}
use custome_provider_mongo_d.Organization.Network.{
  provision_with, provision_ip_access, enable_api_access_list_required,
}
use custome_provider_mongo_d.Organization.Reconcile.Steps.{
  persist-Agrees, store-Agrees, resolve-Agrees, update_status-Agrees,
}
use custome_provider_mongo_d.Organization.Create.{
  create_restore, create_reuse, record_created, store_in_kubernetes, put_in_aws, store_in_aws,
  store_by_default, store_by, store_api_key, after_provisioning, provision_new, after_enforcing,
  enforce_new, finish_creation, reuse_messages,
}

module _ (p : Platform) (c : External) where
  pub create_restore-Agrees : (id : String) → Keeps (Agrees p) (create_restore p c id)
  unfolding create_restore
  create_restore-Agrees id = search (agree_rules, persist-Agrees)

  pub create_reuse-Agrees : (org : AtlasOrganization) → Keeps (Agrees p) (create_reuse p c org)
  unfolding create_reuse with_external_name
  create_reuse-Agrees org = Keeps-bind _ _ (search agree_rules) λ _.
      Keeps-bind _ _ (adopt-Agrees org) λ _.
        Keeps-bind _ _ (persist-Agrees p (reuse_messages p c) org.id)
          λ latest. save_adopted p c "updating status after reuse" latest []

  record_created-Agrees :
      (org : AtlasOrganization) (key : ApiKeyPair) → Keeps (Agrees p) (record_created p c org key)
  unfolding record_created with_external_name
  record_created-Agrees org key = search (agree_rules, persist-Agrees) depth 12

  store_in_kubernetes-Agrees : (key : ApiKeyPair) → Keeps (Agrees p) (store_in_kubernetes p c key)
  store_in_kubernetes-Agrees key = search (agree_rules, store-Agrees) depth 9

  put_in_aws-Agrees :
      (region name org_id : String) (kms : Option String) (key : ApiKeyPair)
      → Keeps (Agrees p) (put_in_aws p c region name org_id kms key)
  put_in_aws-Agrees region name org_id kms key = search agree_rules depth 9

  store_in_aws-Agrees :
      (region : Option String) (config : Option AwsSecretsManagerReference)
      (org : AtlasOrganization) (key : ApiKeyPair)
      → Keeps (Agrees p) (store_in_aws p c region config org key)
  store_in_aws-Agrees none config org key = search agree_rules
  store_in_aws-Agrees (some region) none org key = search agree_rules
  store_in_aws-Agrees (some region) (some config) org key = search put_in_aws-Agrees

  store_by_default-Agrees :
      (region : Option String) (config : Option AwsSecretsManagerReference)
      (org : AtlasOrganization) (key : ApiKeyPair)
      → Keeps (Agrees p) (store_by_default p c region config org key)
  store_by_default-Agrees none config org key = search agree_rules
  store_by_default-Agrees (some region) none org key = search agree_rules
  store_by_default-Agrees (some region) (some config) org key =
      search (agree_rules, put_in_aws-Agrees)

  store_by-Agrees :
      (cr : Organization) (config : Option SecretStorageConfig) (org : AtlasOrganization)
      (key : ApiKeyPair)
      → Keeps (Agrees p) (store_by p c cr config org key)
  store_by-Agrees cr none org key = search store_by_default-Agrees
  store_by-Agrees cr (some config) org key =
      search (agree_rules, store_in_kubernetes-Agrees, store_in_aws-Agrees)

  store_api_key-Agrees :
      (org : AtlasOrganization) (key : ApiKeyPair) → Keeps (Agrees p) (store_api_key p c org key)
  unfolding store_api_key
  store_api_key-Agrees org key = search (agree_rules, store_by-Agrees)

  provision_with-Agrees :
      (org_id : String) (entries : List IpAccessEntry) (key : ApiKeyPair) (found : Option String)
      → Keeps (Agrees p) (provision_with p org_id entries key found)
  provision_with-Agrees org_id entries key none = search agree_rules
  provision_with-Agrees org_id entries key (some key_id) = search agree_rules depth 9

  provision_ip_access-Agrees :
      (org_id : String) (entries : List IpAccessEntry) (key : ApiKeyPair)
      → Keeps (Agrees p) (provision_ip_access p org_id entries key)
  unfolding provision_ip_access
  provision_ip_access-Agrees org_id [] key = search agree_rules
  provision_ip_access-Agrees org_id (e ∷ entries) key =
      Keeps-bind _ _ (resolve-Agrees p _ org_id) (provision_with-Agrees org_id (e ∷ entries) key)

  after_provisioning-consistent :
      (r : Result (List IpAccessEntry)) (now : Time) (o : OrganizationObservation)
      → consistent o ≡ true
      → consistent (after_provisioning p c r now o) ≡ true
  after_provisioning-consistent (ok ips) now o h = ground (arith, h)
  after_provisioning-consistent (err e) now o h = h

  provisioned-Agrees :
      (r : Result (List IpAccessEntry)) (now : Time)
      → Keeps (Agrees p) (set_at_provider (after_provisioning p c r now))
  provisioned-Agrees r now = Keeps-record _ (after_provisioning-consistent r now)

  provision_new-Agrees :
      (org_id : String) (key : ApiKeyPair) → Keeps (Agrees p) (provision_new p c org_id key)
  unfolding provision_new
  provision_new-Agrees org_id key =
      search (agree_rules, provision_ip_access-Agrees, provisioned-Agrees) depth 9

  after_enforcing-consistent :
      (r : Result (Unit {0})) (now : Time) (o : OrganizationObservation)
      → consistent o ≡ true
      → consistent (after_enforcing p c r now o) ≡ true
  after_enforcing-consistent (ok u) now o h = ground (arith, h)
  after_enforcing-consistent (err e) now o h = h

  enforced-Agrees :
      (r : Result (Unit {0})) (now : Time)
      → Keeps (Agrees p) (set_at_provider (after_enforcing p c r now))
  enforced-Agrees r now = Keeps-record _ (after_enforcing-consistent r now)

  enforce_new-Agrees :
      (org_id : String) (key : ApiKeyPair) → Keeps (Agrees p) (enforce_new p c org_id key)
  unfolding enforce_new enable_api_access_list_required
  enforce_new-Agrees org_id key = search (agree_rules, enforced-Agrees) depth 9

  active-consistent :
      (o : OrganizationObservation)
      → consistent o ≡ true
      → consistent (record o { state = some organization_state_active }) ≡ true
  active-consistent o h = ground (arith, h)

  active-Agrees :
      Keeps (Agrees p) (set_at_provider (λ o. record o { state = some organization_state_active }))
  active-Agrees = Keeps-record _ active-consistent

  module _ (kept : KeepsStatus p) where
    pub finish_creation-Agrees :
        (org : AtlasOrganization) (key : ApiKeyPair)
        → Keeps (Agrees p) (finish_creation p c org key)
    unfolding finish_creation
    finish_creation-Agrees org key = Keeps-bind _ _ (record_created-Agrees org key) λ _.
        Keeps-bind _ _ (store_api_key-Agrees org key) λ arn. Keeps-bind _ _ active-Agrees λ _.
          Keeps-bind _ _ (provision_new-Agrees org.id key) λ _.
            Keeps-bind _ _ (enforce_new-Agrees org.id key)
              λ _. search (agree_rules, update_status-Agrees, kept)
