-- ===== src/Organization/Panics/Deleting.antt =====
-- `Delete` does not panic.
use custome_provider_mongo_d.Prelude.{String, Option, none, some, List, [], ◌∷◌}
use custome_provider_mongo_d.Go.Exec.{Result, ok, err}
use custome_provider_mongo_d.Go.Fault.{Fault}
use custome_provider_mongo_d.Go.Panics.{NeverPanics, NeverPanics-bind}
use custome_provider_mongo_d.Api.Organization.{Organization, IpAccessEntry, Time}
use custome_provider_mongo_d.Mongo.Service.{Credentials}
use custome_provider_mongo_d.Organization.Platform.{Platform, External}
use custome_provider_mongo_d.Organization.Panics.{
  call_rules, update_status-NeverPanics, fetch-NeverPanics, delete_k8s-NeverPanics,
  resolve-NeverPanics,
}
use custome_provider_mongo_d.Organization.Delete.{
  save_status, delete_aws_secret, delete_stored_secret, remove_managed_finalizer, remove_finalizers,
  cleanup_secrets_after_delete, remove_ips, remove_with_key, remove_with, cleanup_ips,
  record_attempt, fail_attempt, fail_verification, after_verify, verify_deleted, after_delete,
  delete_in_atlas, after_fetch, delete_with_org_key, after_precheck, precheck, delete,
}

module _ (p : Platform) (c : External) where
  save_status-NeverPanics : NeverPanics (save_status p c)
  unfolding save_status
  save_status-NeverPanics = search (call_rules, update_status-NeverPanics)

  delete_aws-NeverPanics :
      (region : Option String) (cr : Organization) → NeverPanics (delete_aws_secret p c region cr)
  delete_aws-NeverPanics none cr = search call_rules
  delete_aws-NeverPanics (some region) cr = search call_rules

  managed-NeverPanics : (r : Result Organization) → NeverPanics (remove_managed_finalizer p c r)
  managed-NeverPanics (err e) = search call_rules
  managed-NeverPanics (ok latest) = search call_rules depth 9

  cleanup-NeverPanics : (now : Time) → NeverPanics (cleanup_secrets_after_delete p c now)
  unfolding cleanup_secrets_after_delete delete_stored_secret remove_finalizers
  cleanup-NeverPanics now =
      search
        (
          call_rules, delete_aws-NeverPanics, delete_k8s-NeverPanics, managed-NeverPanics,
          save_status-NeverPanics,
        )
        depth 12

  remove_ips-NeverPanics :
      (creds : Credentials) (org_id key_id : String) (entries : List IpAccessEntry)
      → NeverPanics (remove_ips p c creds org_id key_id entries)
  unfolding remove_ips
  remove_ips-NeverPanics creds org_id key_id [] = search call_rules
  remove_ips-NeverPanics creds org_id key_id (e ∷ entries) =
      NeverPanics-bind _ _ (search call_rules)
        (λ _. remove_ips-NeverPanics creds org_id key_id entries)

  with_key-NeverPanics :
      (creds : Credentials) (org_id : String) (found : Option String)
      → NeverPanics (remove_with_key p c creds org_id found)
  with_key-NeverPanics creds org_id none = search call_rules
  with_key-NeverPanics creds org_id (some key_id) = search (call_rules, remove_ips-NeverPanics)

  remove_with-NeverPanics :
      (org_id : String) (r : Result Credentials) → NeverPanics (remove_with p c org_id r)
  remove_with-NeverPanics org_id (err e) = search call_rules
  remove_with-NeverPanics org_id (ok creds) =
      search (call_rules, resolve-NeverPanics, with_key-NeverPanics)

  cleanup_ips-NeverPanics : (org_id : String) → NeverPanics (cleanup_ips p c org_id)
  unfolding cleanup_ips
  cleanup_ips-NeverPanics org_id =
      search (call_rules, fetch-NeverPanics, remove_with-NeverPanics) depth 9

  attempt-NeverPanics : (now : Time) → NeverPanics (record_attempt p c now)
  unfolding record_attempt
  attempt-NeverPanics now = search (call_rules, save_status-NeverPanics)

  fail_attempt-NeverPanics : (msg : String) (e : Fault) → NeverPanics (fail_attempt p c msg e)
  unfolding fail_attempt
  fail_attempt-NeverPanics msg e = search (call_rules, save_status-NeverPanics) depth 9

  fail_verification-NeverPanics : (e : Fault) → NeverPanics (fail_verification p c e)
  unfolding fail_verification
  fail_verification-NeverPanics e = search (call_rules, save_status-NeverPanics) depth 9

  ruleset delete_rules =
      (call_rules, cleanup-NeverPanics, fail_attempt-NeverPanics, fail_verification-NeverPanics)

  after_verify-NeverPanics :
      (now : Time) (r : Result (Unit {0})) → NeverPanics (after_verify p c now r)
  after_verify-NeverPanics now (ok u) = search delete_rules
  after_verify-NeverPanics now (err e) = search delete_rules

  after_delete-NeverPanics :
      (creds : Credentials) (org_id : String) (now : Time) (r : Result (Unit {0}))
      → NeverPanics (after_delete p c creds org_id now r)
  unfolding verify_deleted
  after_delete-NeverPanics creds org_id now (ok u) = search (delete_rules, after_verify-NeverPanics)
  after_delete-NeverPanics creds org_id now (err e) = search delete_rules depth 9

  after_fetch-NeverPanics :
      (org_id : String) (now : Time) (r : Result Credentials)
      → NeverPanics (after_fetch p c org_id now r)
  unfolding delete_in_atlas
  after_fetch-NeverPanics org_id now (ok creds) = search (delete_rules, after_delete-NeverPanics)
  after_fetch-NeverPanics org_id now (err e) = search delete_rules

  after_precheck-NeverPanics :
      (org_id : String) (now : Time) (r : Result (Unit {0}))
      → NeverPanics (after_precheck p c org_id now r)
  unfolding delete_with_org_key
  after_precheck-NeverPanics org_id now (ok u) = search delete_rules
  after_precheck-NeverPanics org_id now (err e) =
      search (delete_rules, fetch-NeverPanics, after_fetch-NeverPanics) depth 9

  pub delete-NeverPanics : NeverPanics (delete p c)
  unfolding delete precheck
  delete-NeverPanics =
      search
        (delete_rules, cleanup_ips-NeverPanics, attempt-NeverPanics, after_precheck-NeverPanics)
        depth 12
