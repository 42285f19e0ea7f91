-- ===== src/Organization/Delete/Orphans.antt =====
-- When `Delete` cleans up without asking Atlas to delete the organization.
use custome_provider_mongo_d.Prelude.{◌≡◌, true, String, some, ◌∷◌, arith}
use custome_provider_mongo_d.Prelude.Text.{lower_contains}
use custome_provider_mongo_d.Go.Exec.{Result, err}
use custome_provider_mongo_d.Go.Fault.{Fault, wrapped, retryable}
use custome_provider_mongo_d.Api.Organization.{Time}
use custome_provider_mongo_d.Organization.Errors.{is_atlas_transient_or_opaque_delete_err}
use custome_provider_mongo_d.Organization.Errors.Transient.{
  transient-wrapped-retryable, still_exists, transient-still_exists,
}
use custome_provider_mongo_d.Organization.Platform.{
  Platform, External, State, call, atlas, verify_organization_deletion,
}
use custome_provider_mongo_d.Organization.Delete.{precheck, cleanup_secrets_after_delete}

module _ (p : Platform) (c : External) (org_id : String) (now : Time) (s : State) where
  -- What the first check of the organization answers, and the state after it.
  abbrev pub check_answer : Result (Unit {0})
  check_answer = (p.service s.calls c.credentials).verify_organization_deletion org_id

  abbrev pub checked_state : State
  checked_state = record s {
    calls = atlas c.credentials (verify_organization_deletion org_id) ∷ s.calls;
  }

  precheck_of_transient :
      (e : Fault)
      → check_answer ≡ err e
      → is_atlas_transient_or_opaque_delete_err (some e) ≡ true
      → precheck p c org_id now s ≡ cleanup_secrets_after_delete p c now checked_state
  unfolding precheck call
  precheck_of_transient e h t = ground arith

  -- A retryable failure of the first check (a network failure, a 429, a 5xx) counts as a deleted
  -- organization: the handler goes straight on to the cleanup, which deletes the credentials and the
  -- finalizer, and never asks Atlas to delete the organization.
  pub precheck_retryable :
      (msg : String) (e : Fault) (why : String)
      → check_answer ≡ err (wrapped msg (retryable e why))
      → precheck p c org_id now s ≡ cleanup_secrets_after_delete p c now checked_state
  precheck_retryable msg e why h =
      precheck_of_transient (wrapped msg (retryable e why)) h
        (transient-wrapped-retryable msg e why)

  -- So it is for an organization that the check found to exist, if its id has the digits 500 in it:
  -- the text of that error contains the id, and is searched for a status code.
  pub precheck-still_exists :
      lower_contains org_id "500" ≡ true
      → check_answer ≡ err (still_exists org_id)
      → precheck p c org_id now s ≡ cleanup_secrets_after_delete p c now checked_state
  precheck-still_exists h answer =
      precheck_of_transient (still_exists org_id) answer (transient-still_exists org_id h)
