-- ===== src/Organization/Trace/Common.antt =====
-- The calls of the steps that several handlers share.
use custome_provider_mongo_d.Prelude.{List, Bool, String, Option, none, some}
use custome_provider_mongo_d.Go.Exec.{Result, ok, err}
use custome_provider_mongo_d.Go.Json.{Document}
use custome_provider_mongo_d.Go.Keeps.{Keeps}
use custome_provider_mongo_d.Api.Organization.{Organization}
use custome_provider_mongo_d.Mongo.Service.{Credentials}
use custome_provider_mongo_d.Organization.Trace.{
  Only, PermitsReads, PermitsSaves, PermitsStatus, trace_rules, Keeps-pass,
}
use custome_provider_mongo_d.Organization.Platform.{Platform, External, Call}
use custome_provider_mongo_d.Organization.Secrets.{
  credentials_of, get_k8s_secret, fetch_from_aws, fetch_org_credentials,
}
use custome_provider_mongo_d.Organization.Network.{resolve_api_key_id}
use custome_provider_mongo_d.Organization.Status.{
  PersistMessages, retry_status, update_status_with_retry, after_update, persist_external_name,
}

module _ (p : Platform) {good : Call → Bool} {base : List Call} (reads : PermitsReads good)
    (status : PermitsStatus good) where
  retry_status-Only :
      (obj : Organization) (r : Result Organization) → Keeps (Only good base) (retry_status p obj r)
  retry_status-Only obj (ok updated) = search trace_rules
  retry_status-Only obj (err e) = search trace_rules

  pub update_status_with_retry-Only : Keeps (Only good base) (update_status_with_retry p)
  unfolding update_status_with_retry
  update_status_with_retry-Only = search (trace_rules, retry_status-Only)

  credentials_of-Only : (o : Option Document) → Keeps (Only good base) (credentials_of p o)
  credentials_of-Only none = search trace_rules
  credentials_of-Only (some d) = search (trace_rules, Keeps-pass)

  get_k8s_secret-Only : (cr : Organization) → Keeps (Only good base) (get_k8s_secret p cr)
  unfolding get_k8s_secret
  get_k8s_secret-Only cr = search (trace_rules, credentials_of-Only)

  fetch_from_aws-Only :
      (region : Option String) (cr : Organization)
      → Keeps (Only good base) (fetch_from_aws p region cr)
  fetch_from_aws-Only none cr = search trace_rules
  fetch_from_aws-Only (some region) cr = search trace_rules

  pub fetch_org_credentials-Only :
      (c : External) (cr : Organization) → Keeps (Only good base) (fetch_org_credentials p c cr)
  unfolding fetch_org_credentials
  fetch_org_credentials-Only c cr = search (trace_rules, get_k8s_secret-Only, fetch_from_aws-Only)

  pub resolve_api_key_id-Only :
      (creds : Credentials) (org_id : String)
      → Keeps (Only good base) (resolve_api_key_id p creds org_id)
  unfolding resolve_api_key_id
  resolve_api_key_id-Only creds org_id = search trace_rules

module _ (p : Platform) {good : Call → Bool} {base : List Call} (reads : PermitsReads good)
    (saves : PermitsSaves good) where
  after_update-Only :
      (m : PersistMessages) (name id : String) (r : Result Organization)
      → Keeps (Only good base) (after_update p m name id r)
  after_update-Only m name id (ok latest) = search trace_rules
  after_update-Only m name id (err e) = search trace_rules

  pub persist_external_name-Only :
      (m : PersistMessages) (id : String) → Keeps (Only good base) (persist_external_name p m id)
  unfolding persist_external_name
  persist_external_name-Only m id = search (trace_rules, after_update-Only) depth 9
