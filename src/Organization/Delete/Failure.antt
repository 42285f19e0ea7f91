-- ===== src/Organization/Delete/Failure.antt =====
-- What `Delete` leaves alone when it fails.
use custome_provider_mongo_d.Prelude.{
  List, refl, Bool, true, false, String, Option, none, some, [], ◌∷◌, ◌≡◌,
}
use custome_provider_mongo_d.Go.Exec.{failed, Result, ok, err}
use custome_provider_mongo_d.Go.Fault.{Fault}
use custome_provider_mongo_d.Go.Keeps.{
  Keeps, Keeps-bind, KeepsOnFail, KeepsOnFail-if, KeepsOnFail-bind, Keeps-KeepsOnFail,
  NeverFails-KeepsOnFail,
}
use custome_provider_mongo_d.Api.Organization.{Organization, IpAccessEntry, Time}
use custome_provider_mongo_d.Mongo.Service.{Credentials}
use custome_provider_mongo_d.Organization.Trace.{
  Only-start, Only, PermitsReads, PermitsStatus, trace_rules,
}
use custome_provider_mongo_d.Organization.Trace.Common.{
  update_status_with_retry-Only, fetch_org_credentials-Only, resolve_api_key_id-Only,
}
use custome_provider_mongo_d.Organization.Status.{update_status_with_retry}
use custome_provider_mongo_d.Organization.Secrets.{fetch_org_credentials}
use custome_provider_mongo_d.Organization.Network.{resolve_api_key_id}
use custome_provider_mongo_d.Organization.Platform.{
  Platform, State, External, Call, kube_delete_secret, kube_update_organization, aws_delete_secret,
}
use custome_provider_mongo_d.Organization.Delete.Cleanup.{cleanup-NeverFails}
use custome_provider_mongo_d.Organization.Delete.{
  save_status, remove_ips, remove_with_key, remove_with, cleanup_ips, record_attempt, fail_attempt,
  fail_verification, after_verify, verify_deleted, after_delete, delete_in_atlas, after_fetch,
  delete_with_org_key, after_precheck, precheck, delete_existing, delete,
}

-- No secret is deleted, and the finalizers of the object are not written.
abbrev pub is_keeping : Call → Bool
is_keeping (kube_delete_secret namespace name) = false
is_keeping (aws_delete_secret name force) = false
is_keeping (kube_update_organization o) = false
is_keeping _ = true

reads : PermitsReads is_keeping
reads = record {
  get_object = λ name. record { allowed = refl };
  get_k8s = λ namespace name. record { allowed = refl };
  get_aws = λ name. record { allowed = refl };
  describe_aws = λ name. record { allowed = refl };
  search_name = λ c name. record { allowed = refl };
  find_key = λ c org_id key. record { allowed = refl };
  verify = λ c org_id. record { allowed = refl };
}

status : PermitsStatus is_keeping
status = record { write_status = λ o. record { allowed = refl } }

module _ (p : Platform) (c : External) {base : List Call} where
  update_status-Only : Keeps (Only is_keeping base) (update_status_with_retry p)
  update_status-Only = update_status_with_retry-Only p reads status

  pub fetch-Only : (cr : Organization) → Keeps (Only is_keeping base) (fetch_org_credentials p c cr)
  fetch-Only = fetch_org_credentials-Only p reads status c

  resolve-Only :
      (creds : Credentials) (org_id : String)
      → Keeps (Only is_keeping base) (resolve_api_key_id p creds org_id)
  resolve-Only = resolve_api_key_id-Only p reads status

  save_status-Only : Keeps (Only is_keeping base) (save_status p c)
  unfolding save_status
  save_status-Only = search (trace_rules, update_status-Only)

  remove_ips-Only :
      (creds : Credentials) (org_id key_id : String) (entries : List IpAccessEntry)
      → Keeps (Only is_keeping base) (remove_ips p c creds org_id key_id entries)
  unfolding remove_ips
  remove_ips-Only creds org_id key_id [] = search trace_rules
  remove_ips-Only creds org_id key_id (e ∷ entries) =
      Keeps-bind _ _ (search trace_rules) (λ _. remove_ips-Only creds org_id key_id entries)

  remove_with_key-Only :
      (creds : Credentials) (org_id : String) (found : Option String)
      → Keeps (Only is_keeping base) (remove_with_key p c creds org_id found)
  remove_with_key-Only creds org_id none = search trace_rules
  remove_with_key-Only creds org_id (some key_id) = search (trace_rules, remove_ips-Only)

  remove_with-Only :
      (org_id : String) (r : Result Credentials)
      → Keeps (Only is_keeping base) (remove_with p c org_id r)
  remove_with-Only org_id (err e) = search trace_rules
  remove_with-Only org_id (ok creds) = search (trace_rules, resolve-Only, remove_with_key-Only)

  pub cleanup_ips-Only : (org_id : String) → Keeps (Only is_keeping base) (cleanup_ips p c org_id)
  unfolding cleanup_ips
  cleanup_ips-Only org_id = search (trace_rules, fetch-Only, remove_with-Only) depth 9

  pub record_attempt-Only : (now : Time) → Keeps (Only is_keeping base) (record_attempt p c now)
  unfolding record_attempt
  record_attempt-Only now = search (trace_rules, save_status-Only)

  fail_attempt-Only :
      (msg : String) (e : Fault) → Keeps (Only is_keeping base) (fail_attempt p c msg e)
  unfolding fail_attempt
  fail_attempt-Only msg e = search (trace_rules, save_status-Only) depth 9

  fail_verification-Only : (e : Fault) → Keeps (Only is_keeping base) (fail_verification p c e)
  unfolding fail_verification
  fail_verification-Only e = search (trace_rules, save_status-Only) depth 9

  ruleset fail_rules = (
    trace_rules, KeepsOnFail-if, KeepsOnFail-bind, Keeps-KeepsOnFail, NeverFails-KeepsOnFail,
    cleanup-NeverFails, fail_attempt-Only, fail_verification-Only,
  )

  after_verify-Fail :
      (now : Time) (r : Result (Unit {0}))
      → KeepsOnFail (Only is_keeping base) (after_verify p c now r)
  after_verify-Fail now (ok u) = search fail_rules
  after_verify-Fail now (err e) = search fail_rules

  verify_deleted-Fail :
      (creds : Credentials) (org_id : String) (now : Time)
      → KeepsOnFail (Only is_keeping base) (verify_deleted p c creds org_id now)
  unfolding verify_deleted
  verify_deleted-Fail creds org_id now =
      KeepsOnFail-bind _ _ (search trace_rules) (after_verify-Fail now)

  after_delete-Fail :
      (creds : Credentials) (org_id : String) (now : Time) (r : Result (Unit {0}))
      → KeepsOnFail (Only is_keeping base) (after_delete p c creds org_id now r)
  after_delete-Fail creds org_id now (ok u) = verify_deleted-Fail creds org_id now
  after_delete-Fail creds org_id now (err e) = search fail_rules depth 9

  delete_in_atlas-Fail :
      (creds : Credentials) (org_id : String) (now : Time)
      → KeepsOnFail (Only is_keeping base) (delete_in_atlas p c creds org_id now)
  unfolding delete_in_atlas
  delete_in_atlas-Fail creds org_id now =
      KeepsOnFail-bind _ _ (search trace_rules) (after_delete-Fail creds org_id now)

  after_fetch-Fail :
      (org_id : String) (now : Time) (r : Result Credentials)
      → KeepsOnFail (Only is_keeping base) (after_fetch p c org_id now r)
  after_fetch-Fail org_id now (ok creds) = delete_in_atlas-Fail creds org_id now
  after_fetch-Fail org_id now (err e) = search fail_rules

  delete_with_org_key-Fail :
      (org_id : String) (now : Time)
      → KeepsOnFail (Only is_keeping base) (delete_with_org_key p c org_id now)
  unfolding delete_with_org_key
  delete_with_org_key-Fail org_id now =
      KeepsOnFail-bind _ _ (search trace_rules) (λ cr.
        KeepsOnFail-bind _ _ (search (trace_rules, fetch-Only)) (after_fetch-Fail org_id now))

  after_precheck-Fail :
      (org_id : String) (now : Time) (r : Result (Unit {0}))
      → KeepsOnFail (Only is_keeping base) (after_precheck p c org_id now r)
  after_precheck-Fail org_id now (ok u) = search fail_rules
  after_precheck-Fail org_id now (err e) = search (fail_rules, delete_with_org_key-Fail)

  delete_existing-Fail :
      (org_id : String) → KeepsOnFail (Only is_keeping base) (delete_existing p c org_id)
  unfolding precheck
  delete_existing-Fail org_id = KeepsOnFail-bind _ _ (search trace_rules) λ now.
      KeepsOnFail-bind _ _ (record_attempt-Only now)
        λ _. KeepsOnFail-bind _ _ (search trace_rules) (after_precheck-Fail org_id now)

  delete-KeepsOnFail : KeepsOnFail (Only is_keeping base) (delete p c)
  unfolding delete
  delete-KeepsOnFail = KeepsOnFail-bind _ _ (search trace_rules) λ cr.
      KeepsOnFail-bind _ _ (cleanup_ips-Only (p.get_external_name cr.metadata))
        λ _. search (fail_rules, delete_existing-Fail)

-- Where `Delete` fails, none of its calls deletes a secret or writes the object, so that the
-- finalizers stay and the next attempt has the credentials of the organization.
pub delete_failed-Only :
    (p : Platform) (c : External) (s : State) (e : Fault)
    → (delete p c s).0 ≡ failed e
    → Only is_keeping s.calls (delete p c s).1
delete_failed-Only p c s e h = (delete-KeepsOnFail p c).at s e h (Only-start s)
