-- ===== src/Organization/Update/Calls.antt =====
-- Which calls `Update` can make.
use custome_provider_mongo_d.Prelude.{
  refl, Bool, true, false, String, Option, none, some, List, [], ◌∷◌,
}
use custome_provider_mongo_d.Organization.Trace.{
  trace_rules, PermitsStatus, PermitsReads, Only, Only-start,
}
use custome_provider_mongo_d.Mongo.Service.{Credentials, ApiKeyPair}
use custome_provider_mongo_d.Organization.Platform.{
  create_organization, delete_organization, atlas, Platform, Call, Secret, External,
  kube_update_organization, State,
}
use custome_provider_mongo_d.Go.Exec.{Result, ok, err}
use custome_provider_mongo_d.Api.Organization.{
  Organization, SecretStorageConfig, AwsSecretsManagerReference, Time,
}
use custome_provider_mongo_d.Organization.Update.{
  migrate_to_kubernetes, migrate, migrate_to_aws, put_migrated, migrate_to_aws_as,
  delete_old_aws_secret, assigned, note_add_error, update_org, described, assign_roles,
  remove_surplus, add_missing, update, describe_key, update_ips, update_key, sync_ips,
  update_found_key, update_enforcement, sync_found, enforced, ◌∷◌, migrate_with,
}
use custome_provider_mongo_d.Organization.Secrets.{
  delete_k8s_secret, create_or_update_k8s_secret, fetch_org_credentials, absent_is_deleted,
  create_or_update,
}
use custome_provider_mongo_d.Go.Keeps.{Keeps, Keeps-bind}
use custome_provider_mongo_d.Organization.Status.{update_status_with_retry}
use custome_provider_mongo_d.Organization.Network.{resolve_api_key_id}
use custome_provider_mongo_d.Organization.Trace.Common.{
  fetch_org_credentials-Only, resolve_api_key_id-Only, update_status_with_retry-Only,
}

-- A call that creates or deletes no organization, and does not write the Organization object.
abbrev pub is_updating : Call → Bool
is_updating (atlas creds (create_organization input)) = false
is_updating (atlas creds (delete_organization org_id)) = false
is_updating (kube_update_organization o) = false
is_updating _ = true

reads : PermitsReads is_updating
reads = record {
  get_object = λ name. record { allowed = refl };
  get_k8s = λ namespace name. record { allowed = refl };
  get_aws = λ name. record { allowed = refl };
  describe_aws = λ name. record { allowed = refl };
  search_name = λ c name. record { allowed = refl };
  find_key = λ c org_id key. record { allowed = refl };
  verify = λ c org_id. record { allowed = refl };
}

status : PermitsStatus is_updating
status = record { write_status = λ o. record { allowed = refl } }

module _ (p : Platform) (c : External) {base : List Call} where
  update_status-Only : Keeps (Only is_updating base) (update_status_with_retry p)
  update_status-Only = update_status_with_retry-Only p reads status

  fetch-Only : (cr : Organization) → Keeps (Only is_updating base) (fetch_org_credentials p c cr)
  fetch-Only = fetch_org_credentials-Only p reads status c

  resolve-Only :
      (creds : Credentials) (org_id : String)
      → Keeps (Only is_updating base) (resolve_api_key_id p creds org_id)
  resolve-Only = resolve_api_key_id-Only p reads status

  create_or_update-Only :
      (x : Secret) (r : Result Secret) → Keeps (Only is_updating base) (create_or_update p x r)
  create_or_update-Only x (ok existing) = search trace_rules
  create_or_update-Only x (err e) = search trace_rules

  store-Only :
      (cr : Organization) (key : ApiKeyPair)
      → Keeps (Only is_updating base) (create_or_update_k8s_secret p cr key)
  unfolding create_or_update_k8s_secret
  store-Only cr key = search (trace_rules, create_or_update-Only)

  absent_is_deleted-Only :
      (r : Result (Unit {0})) → Keeps (Only is_updating base) (absent_is_deleted p r)
  absent_is_deleted-Only (ok u) = search trace_rules
  absent_is_deleted-Only (err e) = search trace_rules

  delete_k8s-Only : (cr : Organization) → Keeps (Only is_updating base) (delete_k8s_secret p cr)
  unfolding delete_k8s_secret
  delete_k8s-Only cr = search (trace_rules, absent_is_deleted-Only)

  delete_old-Only :
      (region : Option String) (current : String)
      → Keeps (Only is_updating base) (delete_old_aws_secret p c region current)
  delete_old-Only none current = search trace_rules
  delete_old-Only (some region) current = search trace_rules depth 9

  to_kubernetes-Only :
      (current : String) (creds : Credentials)
      → Keeps (Only is_updating base) (migrate_to_kubernetes p c current creds)
  unfolding migrate_to_kubernetes
  to_kubernetes-Only current creds = search (trace_rules, store-Only, delete_old-Only) depth 9

  put_migrated-Only :
      (region : String) (config : AwsSecretsManagerReference) (org_id current : String)
      (creds : Credentials)
      → Keeps (Only is_updating base) (put_migrated p c region config org_id current creds)
  put_migrated-Only region config org_id current creds =
      search (trace_rules, delete_k8s-Only) depth 9

  migrate_with-Only :
      (region : String) (config : Option AwsSecretsManagerReference) (org_id current : String)
      (creds : Credentials)
      → Keeps (Only is_updating base) (migrate_with p c region config org_id current creds)
  migrate_with-Only region none org_id current creds = search trace_rules
  migrate_with-Only region (some config) org_id current creds = search put_migrated-Only

  to_aws_as-Only :
      (region : Option String) (config : Option SecretStorageConfig) (org_id current : String)
      (creds : Credentials)
      → Keeps (Only is_updating base) (migrate_to_aws_as p c region config org_id current creds)
  to_aws_as-Only none config org_id current creds = search trace_rules
  to_aws_as-Only (some region) none org_id current creds = search trace_rules
  to_aws_as-Only (some region) (some config) org_id current creds =
      migrate_with-Only region config.aws org_id current creds

  migrate-Only :
      (org_id : String) (creds : Credentials)
      → Keeps (Only is_updating base) (migrate p c org_id creds)
  unfolding migrate migrate_to_aws
  migrate-Only org_id creds = search (trace_rules, to_kubernetes-Only, to_aws_as-Only) depth 9

  described-Only : (r : Result (Unit {0})) → Keeps (Only is_updating base) (described p c r)
  described-Only (ok u) = search trace_rules
  described-Only (err e) = search trace_rules

  assigned-Only :
      (roles : List String) (r : Result (Unit {0}))
      → Keeps (Only is_updating base) (assigned p c roles r)
  assigned-Only roles (ok u) = search trace_rules
  assigned-Only roles (err e) = search trace_rules

  describe_key-Only :
      (creds : Credentials) (org_id key_id : String)
      → Keeps (Only is_updating base) (describe_key p c creds org_id key_id)
  unfolding describe_key
  describe_key-Only creds org_id key_id = search (trace_rules, described-Only) depth 9

  assign_roles-Only :
      (creds : Credentials) (org_id key_id : String)
      → Keeps (Only is_updating base) (assign_roles p c creds org_id key_id)
  unfolding assign_roles
  assign_roles-Only creds org_id key_id = search (trace_rules, assigned-Only) depth 9

  update_found_key-Only :
      (creds : Credentials) (org_id : String) (found : Option String)
      → Keeps (Only is_updating base) (update_found_key p c creds org_id found)
  update_found_key-Only creds org_id none = search trace_rules
  update_found_key-Only creds org_id (some key_id) =
      search (trace_rules, describe_key-Only, assign_roles-Only) depth 9

  update_key-Only :
      (org_id : String) (creds : Credentials)
      → Keeps (Only is_updating base) (update_key p c org_id creds)
  unfolding update_key
  update_key-Only org_id creds = search (trace_rules, resolve-Only, update_found_key-Only) depth 9

  enforced-Only :
      (desired : Bool) (now : Time) (r : Result (Unit {0}))
      → Keeps (Only is_updating base) (enforced p c desired now r)
  enforced-Only desired now (ok u) = search trace_rules
  enforced-Only desired now (err e) = search trace_rules

  update_enforcement-Only :
      (org_id : String) (creds : Credentials) (now : Time)
      → Keeps (Only is_updating base) (update_enforcement p c org_id creds now)
  unfolding update_enforcement
  update_enforcement-Only org_id creds now = search (trace_rules, enforced-Only) depth 9

  note_add_error-Only :
      (r : Result (Unit {0})) → Keeps (Only is_updating base) (note_add_error p c r)
  note_add_error-Only (ok u) = search trace_rules
  note_add_error-Only (err e) = search trace_rules

  add_missing-Only :
      (creds : Credentials) (org_id key_id : String) (ips : List String)
      → Keeps (Only is_updating base) (add_missing p c creds org_id key_id ips)
  unfolding add_missing
  add_missing-Only creds org_id key_id [] = search trace_rules
  add_missing-Only creds org_id key_id (ip ∷ ips) =
      search (trace_rules, note_add_error-Only) depth 9

  remove_surplus-Only :
      (creds : Credentials) (org_id key_id : String) (ips : List String)
      → Keeps (Only is_updating base) (remove_surplus p c creds org_id key_id ips)
  unfolding remove_surplus
  remove_surplus-Only creds org_id key_id [] = search trace_rules
  remove_surplus-Only creds org_id key_id (ip ∷ ips) =
      Keeps-bind _ _ (search trace_rules) (λ _. remove_surplus-Only creds org_id key_id ips)

  sync_ips-Only :
      (creds : Credentials) (org_id key_id : String) (now : Time)
      → Keeps (Only is_updating base) (sync_ips p c creds org_id key_id now)
  unfolding sync_ips
  sync_ips-Only creds org_id key_id now =
      search (trace_rules, add_missing-Only, remove_surplus-Only) depth 12

  sync_found-Only :
      (creds : Credentials) (org_id : String) (now : Time) (found : Option String)
      → Keeps (Only is_updating base) (sync_found p c creds org_id now found)
  sync_found-Only creds org_id now none = search trace_rules
  sync_found-Only creds org_id now (some key_id) = search sync_ips-Only

  update_ips-Only :
      (org_id : String) (creds : Credentials) (now : Time)
      → Keeps (Only is_updating base) (update_ips p c org_id creds now)
  unfolding update_ips
  update_ips-Only org_id creds now = search (trace_rules, resolve-Only, sync_found-Only) depth 9

  update_org-Only : (org_id : String) → Keeps (Only is_updating base) (update_org p c org_id)
  unfolding update_org
  update_org-Only org_id =
      search
        (
          trace_rules, fetch-Only, migrate-Only, update_key-Only, update_enforcement-Only,
          update_ips-Only, update_status-Only,
        )
        depth 14

  update-Keeps : Keeps (Only is_updating base) (update p c)
  unfolding update
  update-Keeps = search (trace_rules, update_org-Only) depth 9

-- `Update` creates and deletes no organization, and writes the Organization object through its status
-- only: on every path, failures and panics included, none of its calls is another one.
pub update-Only :
    (p : Platform) (c : External) (s : State) → Only is_updating s.calls (update p c s).1
update-Only p c s = (update-Keeps p c).at s (Only-start s)
