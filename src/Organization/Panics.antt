-- ===== src/Organization/Panics.antt =====
-- The steps that several handlers share do not panic.
pub mod Observing
pub mod Creating
pub mod Updating
pub mod Deleting
pub mod Handlers
use custome_provider_mongo_d.Prelude.{String, Option, none, some, List}
use custome_provider_mongo_d.Go.Exec.{Result, ok, err, from_result, done, failed}
use custome_provider_mongo_d.Go.Json.{Document}
use custome_provider_mongo_d.Go.Panics.{NeverPanics, panic_rules}
use custome_provider_mongo_d.Api.Organization.{Organization}
use custome_provider_mongo_d.Mongo.Service.{Credentials, ApiKeyPair}
use custome_provider_mongo_d.Organization.Platform.{Platform, External, State, Call, call, Secret}
use custome_provider_mongo_d.Organization.Secrets.{
  unmarshal_credentials, credentials_of, get_k8s_secret, fetch_from_aws, fetch_org_credentials,
  create_or_update, create_or_update_k8s_secret, absent_is_deleted, delete_k8s_secret,
}
use custome_provider_mongo_d.Organization.Network.{resolve_api_key_id}
use custome_provider_mongo_d.Organization.Status.{
  PersistMessages, retry_status, update_status_with_retry, after_update, persist_external_name,
}

NeverPanics-result : {A : Type 0} (r : Result A) → NeverPanics (λ (s : State). (from_result r, s))
NeverPanics-result (ok a) = record { at = λ s. cc }
NeverPanics-result (err e) = record { at = λ s. cc }

pub NeverPanics-call :
    {A : Type 0} (c : Call) (answer : List Call → Result A) → NeverPanics (call c answer)
unfolding call
NeverPanics-call c answer = record { at = λ s. (NeverPanics-result (answer s.calls)).at s }

pub ruleset call_rules = (panic_rules, NeverPanics-call)

module _ (p : Platform) where
  retry_status-NeverPanics :
      (o : Organization) (r : Result Organization) → NeverPanics (retry_status p o r)
  retry_status-NeverPanics o (ok updated) = search call_rules
  retry_status-NeverPanics o (err e) = search call_rules

  pub update_status-NeverPanics : NeverPanics (update_status_with_retry p)
  unfolding update_status_with_retry
  update_status-NeverPanics = search (call_rules, retry_status-NeverPanics)

  after_update-NeverPanics :
      (m : PersistMessages) (name id : String) (r : Result Organization)
      → NeverPanics (after_update p m name id r)
  after_update-NeverPanics m name id (ok latest) = search call_rules
  after_update-NeverPanics m name id (err e) = search call_rules

  pub persist-NeverPanics :
      (m : PersistMessages) (id : String) → NeverPanics (persist_external_name p m id)
  unfolding persist_external_name
  persist-NeverPanics m id = search (call_rules, after_update-NeverPanics) depth 9

  credentials_of-NeverPanics : (d : Option Document) → NeverPanics (credentials_of p d)
  credentials_of-NeverPanics none = search call_rules
  credentials_of-NeverPanics (some d) = search (call_rules, NeverPanics-result)

  get_k8s-NeverPanics : (cr : Organization) → NeverPanics (get_k8s_secret p cr)
  unfolding get_k8s_secret
  get_k8s-NeverPanics cr = search (call_rules, credentials_of-NeverPanics)

  fetch_from_aws-NeverPanics :
      (region : Option String) (cr : Organization) → NeverPanics (fetch_from_aws p region cr)
  fetch_from_aws-NeverPanics none cr = search call_rules
  fetch_from_aws-NeverPanics (some region) cr = search call_rules

  pub fetch-NeverPanics :
      (c : External) (cr : Organization) → NeverPanics (fetch_org_credentials p c cr)
  unfolding fetch_org_credentials
  fetch-NeverPanics c cr = search (call_rules, get_k8s-NeverPanics, fetch_from_aws-NeverPanics)

  create_or_update-NeverPanics :
      (x : Secret) (r : Result Secret) → NeverPanics (create_or_update p x r)
  create_or_update-NeverPanics x (ok existing) = search call_rules
  create_or_update-NeverPanics x (err e) = search call_rules

  pub store-NeverPanics :
      (cr : Organization) (key : ApiKeyPair) → NeverPanics (create_or_update_k8s_secret p cr key)
  unfolding create_or_update_k8s_secret
  store-NeverPanics cr key = search (call_rules, create_or_update-NeverPanics)

  absent-NeverPanics : (r : Result (Unit {0})) → NeverPanics (absent_is_deleted p r)
  absent-NeverPanics (ok u) = search call_rules
  absent-NeverPanics (err e) = search call_rules

  pub delete_k8s-NeverPanics : (cr : Organization) → NeverPanics (delete_k8s_secret p cr)
  unfolding delete_k8s_secret
  delete_k8s-NeverPanics cr = search (call_rules, absent-NeverPanics)

  pub resolve-NeverPanics :
      (creds : Credentials) (org_id : String) → NeverPanics (resolve_api_key_id p creds org_id)
  unfolding resolve_api_key_id
  resolve-NeverPanics creds org_id = search call_rules
