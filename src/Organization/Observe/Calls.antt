-- ===== src/Organization/Observe/Calls.antt =====
-- The calls that `Observe` makes.
use custome_provider_mongo_d.Prelude.{List, refl, Bool, true, false, String, Option, none, some}
use custome_provider_mongo_d.Go.Exec.{Result, ok, err}
use custome_provider_mongo_d.Go.Keeps.{Keeps}
use custome_provider_mongo_d.Api.Organization.{
  Organization, OrganizationObservation, SecretStorageConfig,
}
use custome_provider_mongo_d.Mongo.Service.{Organization as AtlasOrganization}
use custome_provider_mongo_d.Organization.Trace.{
  Only-start, Only, PermitsReads, PermitsSaves, trace_rules,
}
use custome_provider_mongo_d.Organization.Trace.Common.{persist_external_name-Only}
use custome_provider_mongo_d.Organization.Platform.{
  Platform, State, External, Call, kube_create_secret, kube_update_secret, kube_delete_secret,
  aws_put_secret, aws_delete_secret, atlas, create_organization, delete_organization, add_ips,
  remove_ip, update_description, update_roles, set_enforcement,
}
use custome_provider_mongo_d.Organization.Observe.{
  describe_into, describe_final, record_secret_as, record_secret, observe_restore, observe_found,
  observe_search, observe_adopt, observe_settled, observe_deleting, observe, PersistMessages,
  persist_external_name,
}

-- The calls that change nothing in Atlas and no secret.
abbrev pub is_observing : Call → Bool
is_observing (kube_create_secret x) = false
is_observing (kube_update_secret x) = false
is_observing (kube_delete_secret namespace name) = false
is_observing (aws_put_secret name creds org_id key) = false
is_observing (aws_delete_secret name force) = false
is_observing (atlas creds (create_organization input)) = false
is_observing (atlas creds (delete_organization id)) = false
is_observing (atlas creds (add_ips org_id key_id inputs)) = false
is_observing (atlas creds (remove_ip org_id key_id ip)) = false
is_observing (atlas creds (update_description org_id key_id text)) = false
is_observing (atlas creds (update_roles org_id key_id roles)) = false
is_observing (atlas creds (set_enforcement org_id required)) = false
is_observing _ = true

reads : PermitsReads is_observing
reads = record {
  get_object = λ name. record { allowed = refl };
  get_k8s = λ namespace name. record { allowed = refl };
  get_aws = λ name. record { allowed = refl };
  describe_aws = λ name. record { allowed = refl };
  search_name = λ c name. record { allowed = refl };
  find_key = λ c org_id key. record { allowed = refl };
  verify = λ c org_id. record { allowed = refl };
}

saves : PermitsSaves is_observing
saves = record { save_object = λ o. record { allowed = refl } }

pub persist-Only :
    {base : List Call} (p : Platform) (m : PersistMessages) (id : String)
    → Keeps (Only is_observing base) (persist_external_name p m id)
persist-Only p = persist_external_name-Only p reads saves

module _ (p : Platform) (c : External) {base : List Call} where
  describe_into-Only :
      (f : String → OrganizationObservation → OrganizationObservation) (r : Result (Option String))
      → Keeps (Only is_observing base) (describe_into p c f r)
  describe_into-Only f (ok (some arn)) = search trace_rules
  describe_into-Only f (ok none) = search trace_rules
  describe_into-Only f (err e) = search trace_rules

  describe_final-Only :
      (f : String → String → OrganizationObservation → OrganizationObservation)
      (region : Option String) (cr : Organization)
      → Keeps (Only is_observing base) (describe_final p c f region cr)
  describe_final-Only f none cr = search trace_rules
  describe_final-Only f (some region) cr = search (trace_rules, describe_into-Only)

  record_secret_as-Only :
      (cr : Organization) (config : Option SecretStorageConfig)
      → Keeps (Only is_observing base) (record_secret_as p c cr config)
  record_secret_as-Only cr none = search (trace_rules, describe_final-Only)
  record_secret_as-Only cr (some config) = search (trace_rules, describe_final-Only) depth 9

  record_secret-Only : Keeps (Only is_observing base) (record_secret p c)
  unfolding record_secret
  record_secret-Only = search (trace_rules, record_secret_as-Only)

  observe_found-Only :
      (org : AtlasOrganization) → Keeps (Only is_observing base) (observe_found p c org)
  unfolding observe_found
  observe_found-Only org = search (trace_rules, persist-Only) depth 9

  observe_search-Only :
      (r : Result (Option AtlasOrganization))
      → Keeps (Only is_observing base) (observe_search p c r)
  observe_search-Only (ok none) = search trace_rules
  observe_search-Only (ok (some org)) = search observe_found-Only
  observe_search-Only (err e) = search trace_rules

  observe_adopt-Only : (cr : Organization) → Keeps (Only is_observing base) (observe_adopt p c cr)
  unfolding observe_adopt
  observe_adopt-Only cr = search (trace_rules, observe_search-Only)

  observe_restore-Only : (id : String) → Keeps (Only is_observing base) (observe_restore p c id)
  unfolding observe_restore
  observe_restore-Only id = search (trace_rules, persist-Only) depth 9

  observe_settled-Only : Keeps (Only is_observing base) (observe_settled p c)
  unfolding observe_settled
  observe_settled-Only = search (trace_rules, record_secret-Only) depth 9

  observe_deleting-Only : Keeps (Only is_observing base) (observe_deleting p c)
  unfolding observe_deleting
  observe_deleting-Only = search trace_rules

  observe-Keeps : Keeps (Only is_observing base) (observe p c)
  unfolding observe
  observe-Keeps =
      search
        (
          trace_rules, observe_restore-Only, observe_adopt-Only, observe_deleting-Only,
          observe_settled-Only,
        )
        depth 9

-- `Observe` changes nothing in Atlas and no secret: on every path, failures included, the only writes
-- among the calls that it makes are updates of the Organization object and of its status.
pub observe-Only :
    (p : Platform) (c : External) (s : State) → Only is_observing s.calls (observe p c s).1
observe-Only p c s = (observe-Keeps p c).at s (Only-start s)
