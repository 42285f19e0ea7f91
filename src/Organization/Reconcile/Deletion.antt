-- ===== src/Organization/Reconcile/Deletion.antt =====
-- `Delete` keeps the fields of a status in agreement.
use custome_provider_mongo_d.Prelude.{
  ◌≡◌, true, arith, ◌+◌, String, Option, none, some, List, [], ◌∷◌,
}
use custome_provider_mongo_d.Go.Exec.{Result, ok, err}
use custome_provider_mongo_d.Go.Fault.{Fault}
use custome_provider_mongo_d.Go.Keeps.{Keeps, Keeps-bind}
use custome_provider_mongo_d.Mongo.Service.{Credentials}
use custome_provider_mongo_d.Organization.Platform.{Platform, External}
use custome_provider_mongo_d.Organization.Reconcile.{KeepsStatus, consistent}
use custome_provider_mongo_d.Organization.Reconcile.Rules.{Agrees, agree_rules, Keeps-record}
use custome_provider_mongo_d.Api.Organization.{
  Organization, OrganizationObservation, IpAccessEntry, Time, organization_state_deleting,
  organization_state_deleted,
}
use custome_provider_mongo_d.Organization.Reconcile.Steps.{
  resolve-Agrees, update_status-Agrees, fetch-Agrees, delete_k8s-Agrees,
}
use custome_provider_mongo_d.Organization.Delete.{
  delete_aws_secret, delete_stored_secret, remove_managed_finalizer, remove_finalizers,
  cleanup_secrets_after_delete, save_status, remove_ips, remove_with_key, remove_with, cleanup_ips,
  record_attempt, fail_attempt, fail_verification, after_verify, verify_deleted, after_delete,
  delete_in_atlas, after_fetch, delete_with_org_key, after_precheck, precheck, delete_existing,
  delete,
}

module _ (p : Platform) (c : External) (kept : KeepsStatus p) where
  save_status-Agrees : Keeps (Agrees p) (save_status p c)
  unfolding save_status
  save_status-Agrees = search (agree_rules, update_status-Agrees, kept)

  remove_ips-Agrees :
      (creds : Credentials) (org_id key_id : String) (entries : List IpAccessEntry)
      → Keeps (Agrees p) (remove_ips p c creds org_id key_id entries)
  unfolding remove_ips
  remove_ips-Agrees creds org_id key_id [] = search agree_rules
  remove_ips-Agrees creds org_id key_id (e ∷ entries) =
      Keeps-bind _ _ (search agree_rules) (λ _. remove_ips-Agrees creds org_id key_id entries)

  remove_with_key-Agrees :
      (creds : Credentials) (org_id : String) (found : Option String)
      → Keeps (Agrees p) (remove_with_key p c creds org_id found)
  remove_with_key-Agrees creds org_id none = search agree_rules
  remove_with_key-Agrees creds org_id (some key_id) = search (agree_rules, remove_ips-Agrees)

  remove_with-Agrees :
      (org_id : String) (r : Result Credentials) → Keeps (Agrees p) (remove_with p c org_id r)
  remove_with-Agrees org_id (err e) = search agree_rules
  remove_with-Agrees org_id (ok creds) =
      search (agree_rules, resolve-Agrees, remove_with_key-Agrees)

  cleanup_ips-Agrees : (org_id : String) → Keeps (Agrees p) (cleanup_ips p c org_id)
  unfolding cleanup_ips
  cleanup_ips-Agrees org_id = search (agree_rules, fetch-Agrees, remove_with-Agrees) depth 9

  attempt-consistent :
      (now : Time) (o : OrganizationObservation)
      → consistent o ≡ true
      → consistent (record o {
        last_deletion_attempt_time = some now;
        deletion_attempt_count = o.deletion_attempt_count + 1;
        state = some organization_state_deleting;
      })
        ≡ true
  attempt-consistent now o h = ground (arith, h)

  record_attempt-Agrees : (now : Time) → Keeps (Agrees p) (record_attempt p c now)
  unfolding record_attempt
  record_attempt-Agrees now =
      Keeps-bind _ _ (Keeps-record _ (attempt-consistent now)) (λ _. save_status-Agrees)

  delete_aws_secret-Agrees :
      (region : Option String) (cr : Organization)
      → Keeps (Agrees p) (delete_aws_secret p c region cr)
  delete_aws_secret-Agrees none cr = search agree_rules
  delete_aws_secret-Agrees (some region) cr = search agree_rules

  delete_stored_secret-Agrees : Keeps (Agrees p) (delete_stored_secret p c)
  unfolding delete_stored_secret
  delete_stored_secret-Agrees =
      search (agree_rules, delete_k8s-Agrees, delete_aws_secret-Agrees) depth 9

  remove_managed-Agrees :
      (r : Result Organization) → Keeps (Agrees p) (remove_managed_finalizer p c r)
  remove_managed-Agrees (ok latest) = search agree_rules depth 9
  remove_managed-Agrees (err e) = search agree_rules

  remove_finalizers-Agrees : Keeps (Agrees p) (remove_finalizers p c)
  unfolding remove_finalizers
  remove_finalizers-Agrees = search (agree_rules, remove_managed-Agrees) depth 9

  deleted-consistent :
      (now : Time) (o : OrganizationObservation)
      → consistent o ≡ true
      → consistent (record o {
        state = some organization_state_deleted;
        deleted_at = some now;
        last_deletion_attempt_error = "";
      })
        ≡ true
  deleted-consistent now o h = ground (arith, h)

  cleanup-Agrees : (now : Time) → Keeps (Agrees p) (cleanup_secrets_after_delete p c now)
  unfolding cleanup_secrets_after_delete
  cleanup-Agrees now = Keeps-bind _ _ delete_stored_secret-Agrees λ _.
      Keeps-bind _ _ (Keeps-record _ (deleted-consistent now))
        λ _. Keeps-bind _ _ save_status-Agrees λ _. remove_finalizers-Agrees

  fail_attempt-Agrees : (msg : String) (e : Fault) → Keeps (Agrees p) (fail_attempt p c msg e)
  unfolding fail_attempt
  fail_attempt-Agrees msg e = search (agree_rules, save_status-Agrees) depth 9

  fail_verification-Agrees : (e : Fault) → Keeps (Agrees p) (fail_verification p c e)
  unfolding fail_verification
  fail_verification-Agrees e = search (agree_rules, save_status-Agrees) depth 9

  ruleset deletion_rules =
      (agree_rules, cleanup-Agrees, fail_attempt-Agrees, fail_verification-Agrees)

  after_verify-Agrees :
      (now : Time) (r : Result (Unit {0})) → Keeps (Agrees p) (after_verify p c now r)
  after_verify-Agrees now (ok u) = search deletion_rules
  after_verify-Agrees now (err e) = search deletion_rules

  verify_deleted-Agrees :
      (creds : Credentials) (org_id : String) (now : Time)
      → Keeps (Agrees p) (verify_deleted p c creds org_id now)
  unfolding verify_deleted
  verify_deleted-Agrees creds org_id now = search (agree_rules, after_verify-Agrees)

  after_delete-Agrees :
      (creds : Credentials) (org_id : String) (now : Time) (r : Result (Unit {0}))
      → Keeps (Agrees p) (after_delete p c creds org_id now r)
  after_delete-Agrees creds org_id now (ok u) = verify_deleted-Agrees creds org_id now
  after_delete-Agrees creds org_id now (err e) = search deletion_rules depth 9

  delete_in_atlas-Agrees :
      (creds : Credentials) (org_id : String) (now : Time)
      → Keeps (Agrees p) (delete_in_atlas p c creds org_id now)
  unfolding delete_in_atlas
  delete_in_atlas-Agrees creds org_id now = search (agree_rules, after_delete-Agrees)

  after_fetch-Agrees :
      (org_id : String) (now : Time) (r : Result Credentials)
      → Keeps (Agrees p) (after_fetch p c org_id now r)
  after_fetch-Agrees org_id now (ok creds) = delete_in_atlas-Agrees creds org_id now
  after_fetch-Agrees org_id now (err e) = search deletion_rules

  delete_with_org_key-Agrees :
      (org_id : String) (now : Time) → Keeps (Agrees p) (delete_with_org_key p c org_id now)
  unfolding delete_with_org_key
  delete_with_org_key-Agrees org_id now = search (agree_rules, fetch-Agrees, after_fetch-Agrees)

  after_precheck-Agrees :
      (org_id : String) (now : Time) (r : Result (Unit {0}))
      → Keeps (Agrees p) (after_precheck p c org_id now r)
  after_precheck-Agrees org_id now (ok u) = search deletion_rules
  after_precheck-Agrees org_id now (err e) = search (deletion_rules, delete_with_org_key-Agrees)

  delete_existing-Agrees : (org_id : String) → Keeps (Agrees p) (delete_existing p c org_id)
  unfolding precheck
  delete_existing-Agrees org_id =
      search (agree_rules, record_attempt-Agrees, after_precheck-Agrees) depth 9

  pub delete-Agrees : Keeps (Agrees p) (delete p c)
  unfolding delete
  delete-Agrees = search (deletion_rules, cleanup_ips-Agrees, delete_existing-Agrees) depth 9
