-- ===== src/Organization/Delete.antt =====
-- `Delete`: the deletion of the organization in Atlas, and of its secrets and finalizer.
pub mod Failure
pub mod Cleanup
pub mod Orphans
pub mod Outage
pub mod Confirmations
pub mod Confirmed
use custome_provider_mongo_d.Prelude.{
  ◌+◌, String, Bool, true, ◌&&◌, ◌||◌, Option, none, some, List, [], ◌∷◌, ◌==◌, ltb, if◌then◌else◌,
}
use custome_provider_mongo_d.Prelude.Lists.{length}
use custome_provider_mongo_d.Prelude.Text.{contains}
use custome_provider_mongo_d.Go.Fault.{Fault, wrapped, error_text, is_not_found_error}
use custome_provider_mongo_d.Go.Exec.{
  Result, ok, err, pure, throw, attempt, gets, when, ◌>>=◌, ◌>>◌,
}
use custome_provider_mongo_d.Api.Organization.{
  Organization, IpAccessEntry, Time, reconcile_error, organization_state_deleting,
  organization_state_deleted, secret_storage_type_kubernetes,
}
use custome_provider_mongo_d.Mongo.Service.{Credentials}
use custome_provider_mongo_d.Organization.Errors.{
  is_unauthorized_error, is_atlas_transient_or_opaque_delete_err,
}
use custome_provider_mongo_d.Organization.Secrets.{
  delete_k8s_secret, fetch_org_credentials, recorded_secret_name,
}
use custome_provider_mongo_d.Organization.Status.{update_status_with_retry}
use custome_provider_mongo_d.Organization.Observe.{set_at_provider, set_conditions}
use custome_provider_mongo_d.Organization.Network.{resolve_api_key_id}
use custome_provider_mongo_d.Organization.Platform.{
  Platform, External, State, Go, remove_ip, delete_organization, verify_organization_deletion,
  kube_get, kube_update, delete_secret, atlas_call, get_cr,
}

abbrev pub managed_finalizer : String
managed_finalizer = "finalizer.managedresource.crossplane.io"

module _ (p : Platform) (c : External) where
  -- `_ = c.updateStatusWithRetry(ctx, cr)`
  unfoldable pub save_status : Go Unit
  save_status = do attempt (update_status_with_retry p); pure tt

  abbrev pub delete_aws_secret : Option String → Organization → Go Unit
  delete_aws_secret none cr = pure tt
  delete_aws_secret (some region) cr = do
    attempt (delete_secret p region (recorded_secret_name cr) true)
    pure tt

  abbrev pub delete_kubernetes_secret : Organization → Go Unit
  delete_kubernetes_secret cr = do attempt (delete_k8s_secret p cr); pure tt

  unfoldable pub delete_stored_secret : Go Unit
  delete_stored_secret = do
    cr ← get_cr
    if cr.status.at_provider.secret_storage_type == secret_storage_type_kubernetes
        then delete_kubernetes_secret cr
        else delete_aws_secret c.aws_region cr

  abbrev pub remove_managed_finalizer : Result Organization → Go Unit
  remove_managed_finalizer (err e) = pure tt
  remove_managed_finalizer (ok latest) =
      when (p.finalizer_exists latest.metadata managed_finalizer) (do
        attempt (
            kube_update p
              (record latest { metadata = p.remove_finalizer latest.metadata managed_finalizer }))
        pure tt)

  unfoldable pub remove_finalizers : Go Unit
  remove_finalizers = do
    cr ← get_cr
    latest ← attempt (kube_get p cr.metadata.name)
    remove_managed_finalizer latest

  unfoldable pub cleanup_secrets_after_delete : Time → Go Unit
  cleanup_secrets_after_delete now = do
    delete_stored_secret
    set_at_provider (λ o. record o {
      state = some organization_state_deleted;
      deleted_at = some now;
      last_deletion_attempt_error = "";
    })
    save_status
    remove_finalizers

  -- The loop over the provisioned addresses; a failed removal is logged.
  unfoldable pub remove_ips : Credentials → String → String → List IpAccessEntry → Go Unit
  remove_ips creds org_id key_id [] = pure tt
  remove_ips creds org_id key_id (e ∷ entries) = do
    attempt (
        atlas_call p creds (remove_ip org_id key_id e.ip)
          (λ s. s.remove_ip_from_api_key_access_list org_id key_id e.ip))
    remove_ips creds org_id key_id entries

  abbrev pub remove_with_key : Credentials → String → Option String → Go Unit
  remove_with_key creds org_id none = pure tt
  remove_with_key creds org_id (some key_id) = do
    cr ← get_cr
    remove_ips creds org_id key_id cr.status.at_provider.provisioned_ips

  abbrev pub remove_with : String → Result Credentials → Go Unit
  remove_with org_id (err e) = pure tt
  remove_with org_id (ok creds) = do
    found ← resolve_api_key_id p creds org_id
    remove_with_key creds org_id found

  abbrev pub cleanup_requested : Organization → Bool
  cleanup_requested cr =
      cr.spec.for_provider.network_access_config.auto_cleanup
      && ltb 0 (length cr.status.at_provider.provisioned_ips)

  abbrev pub cleanup_fetched : Organization → String → Go Unit
  cleanup_fetched cr org_id = do
    creds ← attempt (fetch_org_credentials p c cr)
    remove_with org_id creds

  unfoldable pub cleanup_ips : String → Go Unit
  cleanup_ips org_id = do cr ← get_cr; when (cleanup_requested cr) (cleanup_fetched cr org_id)

  unfoldable pub record_attempt : Time → Go Unit
  record_attempt now = do
    set_at_provider (λ o. record o {
      last_deletion_attempt_time = some now;
      deletion_attempt_count = o.deletion_attempt_count + 1;
      state = some organization_state_deleting;
    })
    save_status

  -- The attempt failed: the error is recorded, the status saved, and the handler fails.
  unfoldable pub fail_attempt : String → Fault → Go Unit
  fail_attempt msg e = do
    set_at_provider (λ o. record o { last_deletion_attempt_error = error_text e })
    set_conditions p (reconcile_error e)
    save_status
    throw (wrapped msg e)

  unfoldable pub fail_verification : Fault → Go Unit
  fail_verification e = do
    set_at_provider (λ o. record o {
      last_deletion_attempt_error = "organization still exists after delete request";
    })
    save_status
    throw (wrapped "organization delete verification failed" e)

  abbrev pub after_verify : Time → Result (Unit {0}) → Go Unit
  after_verify now (ok u) = cleanup_secrets_after_delete now
  after_verify now (err e) =
      if is_atlas_transient_or_opaque_delete_err (some e)
      then cleanup_secrets_after_delete now
      else if is_not_found_error (some e)
      then cleanup_secrets_after_delete now
      else fail_verification e

  unfoldable pub verify_deleted : Credentials → String → Time → Go Unit
  verify_deleted creds org_id now = do
    answer ← attempt (
        atlas_call p creds (verify_organization_deletion org_id)
          (λ s. s.verify_organization_deletion org_id))
    after_verify now answer

  abbrev pub after_delete : Credentials → String → Time → Result (Unit {0}) → Go Unit
  after_delete creds org_id now (ok u) = verify_deleted creds org_id now
  after_delete creds org_id now (err e) =
      if is_not_found_error (some e)
      then cleanup_secrets_after_delete now
      else if is_unauthorized_error (some e)
      then fail_attempt "unauthorized delete attempt" e
      else if is_atlas_transient_or_opaque_delete_err (some e)
      then cleanup_secrets_after_delete now
      else fail_attempt "delete organization failed" e

  unfoldable pub delete_in_atlas : Credentials → String → Time → Go Unit
  delete_in_atlas creds org_id now = do
    answer ←
        attempt
          (atlas_call p creds (delete_organization org_id) (λ s. s.delete_organization org_id))
    after_delete creds org_id now answer

  -- The texts of AWS's error for a secret that is gone.
  unfoldable pub is_secret_missing : Fault → Bool
  is_secret_missing e =
      contains (error_text e) "ResourceNotFoundException"
      || contains (error_text e) "can't find the specified secret"

  abbrev pub after_fetch : String → Time → Result Credentials → Go Unit
  after_fetch org_id now (ok creds) = delete_in_atlas creds org_id now
  after_fetch org_id now (err e) =
      if is_secret_missing e
      then cleanup_secrets_after_delete now
      else fail_attempt "failed to fetch org credentials for deletion" e

  unfoldable pub delete_with_org_key : String → Time → Go Unit
  delete_with_org_key org_id now = do
    cr ← get_cr
    creds ← attempt (fetch_org_credentials p c cr)
    after_fetch org_id now creds

  abbrev pub after_precheck : String → Time → Result (Unit {0}) → Go Unit
  after_precheck org_id now (ok u) = cleanup_secrets_after_delete now
  after_precheck org_id now (err e) =
      if is_not_found_error (some e)
      then cleanup_secrets_after_delete now
      else if is_atlas_transient_or_opaque_delete_err (some e)
      then cleanup_secrets_after_delete now
      else delete_with_org_key org_id now

  unfoldable pub precheck : String → Time → Go Unit
  precheck org_id now = do
    answer ← attempt (
        atlas_call p c.credentials (verify_organization_deletion org_id)
          (λ s. s.verify_organization_deletion org_id))
    after_precheck org_id now answer

  abbrev pub delete_existing : String → Go Unit
  delete_existing org_id = do
    now ← gets (λ (s : State). p.now s.calls)
    record_attempt now
    precheck org_id now

  abbrev pub delete_nothing : Go Unit
  delete_nothing = do now ← gets (λ (s : State). p.now s.calls); cleanup_secrets_after_delete now

  unfoldable pub delete : Go Unit
  delete = do
    cr ← get_cr
    let org_id = p.get_external_name cr.metadata
    cleanup_ips org_id
    if org_id == "" then delete_nothing else delete_existing org_id
