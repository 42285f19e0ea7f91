-- ===== src/Organization/Delete/Cleanup.antt =====
-- The cleanup after a deletion has no error to report.
use custome_provider_mongo_d.Prelude.{String, Option, none, some}
use custome_provider_mongo_d.Go.Exec.{Result, ok, err}
use custome_provider_mongo_d.Go.Keeps.{NeverFails, never_rules}
use custome_provider_mongo_d.Api.Organization.{Organization, Time}
use custome_provider_mongo_d.Organization.Platform.{Platform, External}
use custome_provider_mongo_d.Organization.Delete.{
  save_status, delete_stored_secret, remove_finalizers, remove_managed_finalizer, delete_aws_secret,
  cleanup_secrets_after_delete,
}

module _ (p : Platform) (c : External) where
  save_status-NeverFails : NeverFails (save_status p c)
  unfolding save_status
  save_status-NeverFails = search never_rules

  delete_aws_secret-NeverFails :
      (region : Option String) (cr : Organization) → NeverFails (delete_aws_secret p c region cr)
  delete_aws_secret-NeverFails none cr = search never_rules
  delete_aws_secret-NeverFails (some region) cr = search never_rules

  delete_stored_secret-NeverFails : NeverFails (delete_stored_secret p c)
  unfolding delete_stored_secret
  delete_stored_secret-NeverFails = search (never_rules, delete_aws_secret-NeverFails) depth 9

  remove_managed_finalizer-NeverFails :
      (r : Result Organization) → NeverFails (remove_managed_finalizer p c r)
  remove_managed_finalizer-NeverFails (err e) = search never_rules
  remove_managed_finalizer-NeverFails (ok latest) = search never_rules

  remove_finalizers-NeverFails : NeverFails (remove_finalizers p c)
  unfolding remove_finalizers
  remove_finalizers-NeverFails = search (never_rules, remove_managed_finalizer-NeverFails)

  -- Once the cleanup is reached, `Delete` reports no error, whatever fails in it.
  pub cleanup-NeverFails : (now : Time) → NeverFails (cleanup_secrets_after_delete p c now)
  unfolding cleanup_secrets_after_delete
  cleanup-NeverFails now =
      search
        (
          never_rules, delete_stored_secret-NeverFails, save_status-NeverFails,
          remove_finalizers-NeverFails,
        )
        depth 9
