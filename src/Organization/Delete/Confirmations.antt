-- ===== src/Organization/Delete/Confirmations.antt =====
-- The answers of Atlas that an organization does not exist.
use custome_provider_mongo_d.Organization.Status.{update_status_with_retry, retry_status}
use custome_provider_mongo_d.Organization.Trace.{Only, Only-start}
use custome_provider_mongo_d.Prelude.{
  ℕ, suc, ◌≤◌, String, Bool, true, false, ◌&&◌, Option, none, some, List, [], ◌∷◌, ◌==◌,
  if◌then◌else◌, arith, ◌++◌,
}
use custome_provider_mongo_d.Go.Fault.{is_not_found_error}
use custome_provider_mongo_d.Go.Exec.{Result, ok, err}
use custome_provider_mongo_d.Go.Keeps.{Keeps, keeps_rules}
use custome_provider_mongo_d.Api.Organization.{Organization, Time}
use custome_provider_mongo_d.Organization.Platform.{
  Platform, External, State, Go, Call, call, set_cr, atlas, verify_organization_deletion,
  delete_organization,
}
use custome_provider_mongo_d.Organization.Delete.{
  cleanup_secrets_after_delete, save_status, delete_aws_secret, delete_stored_secret,
  remove_finalizers, remove_managed_finalizer,
}
use custome_provider_mongo_d.Organization.Secrets.{delete_k8s_secret, absent_is_deleted}

abbrev pub is_missing : Result (Unit {0}) → Bool
is_missing (ok u) = false
is_missing (err e) = is_not_found_error (some e)

-- The check that an organization is gone says so: it succeeds, or answers 404.
abbrev pub is_gone : Result (Unit {0}) → Bool
is_gone (ok u) = true
is_gone (err e) = is_not_found_error (some e)

module _ (p : Platform) (id : String) where
  -- A call that Atlas answers with the news that the organization does not exist.
  abbrev pub confirms : List Call → Call → Bool
  confirms h (atlas creds (verify_organization_deletion i)) =
      i == id && is_gone ((p.service h creds).verify_organization_deletion i)
  confirms h (atlas creds (delete_organization i)) =
      i == id && is_missing ((p.service h creds).delete_organization i)
  confirms h c = false

  unfoldable pub confirmations : List Call → ℕ
  confirmations [] = 0
  confirmations (c ∷ h) = let rest = confirmations h in if confirms h c then suc rest else rest

  confirmations_le : (c : Call) (h : List Call) → confirmations h ≤ confirmations (c ∷ h)
  unfolding confirmations
  confirmations_le c h = ground arith

  confirmations-append :
      (fresh base : List Call) → confirmations base ≤ confirmations (fresh ++ base)
  confirmations-append [] base = omega arith
  confirmations-append (c ∷ fresh) base =
      omega (arith, confirmations-append fresh base, confirmations_le c (fresh ++ base))

  -- Calls do not take a confirmation back.
  pub record AtLeast (n : ℕ) (s : State) : Type 0 where
    pub many : n ≤ confirmations s.calls

  module _ {n : ℕ} where
    pub AtLeast-call :
        {A : Type 0} (c : Call) (answer : List Call → Result A) → Keeps (AtLeast n) (call c answer)
    unfolding call
    AtLeast-call c answer = record {
      at = λ s h. record { many = omega (arith, h.many, confirmations_le c s.calls) };
    }

    pub AtLeast-set_cr : (f : Organization → Organization) → Keeps (AtLeast n) (set_cr f)
    unfolding call
    AtLeast-set_cr f = record { at = λ s h. record { many = h.many } }

    pub ruleset confirmed_rules = (keeps_rules, AtLeast-call, AtLeast-set_cr)

    pub AtLeast-Only :
        {A : Type 0} {good : Call → Bool} (m : Go A)
        → ((base : List Call) → Keeps (Only good base) m)
        → Keeps (AtLeast n) m
    AtLeast-Only m only = record {
      at = λ s h.
          let made = (only s.calls).at s (Only-start s) in
          record {
            many = rw made.since (omega (arith, h.many, confirmations-append made.fresh s.calls));
          };
    }

    module _ (c : External) where
      pub save_status-AtLeast : Keeps (AtLeast n) (save_status p c)
      unfolding save_status update_status_with_retry
      save_status-AtLeast = search (confirmed_rules, retry-AtLeast) depth 9
        where
          retry-AtLeast :
              (o : Organization) (r : Result Organization) → Keeps (AtLeast n) (retry_status p o r)
          retry-AtLeast o (ok updated) = search confirmed_rules
          retry-AtLeast o (err e) = search confirmed_rules

      delete_k8s-AtLeast : (cr : Organization) → Keeps (AtLeast n) (delete_k8s_secret p cr)
      unfolding delete_k8s_secret
      delete_k8s-AtLeast cr = search (confirmed_rules, absent-AtLeast) depth 9
        where
          absent-AtLeast : (r : Result (Unit {0})) → Keeps (AtLeast n) (absent_is_deleted p r)
          absent-AtLeast (ok u) = search confirmed_rules
          absent-AtLeast (err e) = search confirmed_rules

      delete_aws-AtLeast :
          (region : Option String) (cr : Organization)
          → Keeps (AtLeast n) (delete_aws_secret p c region cr)
      delete_aws-AtLeast none cr = search confirmed_rules
      delete_aws-AtLeast (some region) cr = search confirmed_rules

      delete_stored-AtLeast : Keeps (AtLeast n) (delete_stored_secret p c)
      unfolding delete_stored_secret
      delete_stored-AtLeast =
          search (confirmed_rules, delete_k8s-AtLeast, delete_aws-AtLeast) depth 9

      remove_finalizers-AtLeast : Keeps (AtLeast n) (remove_finalizers p c)
      unfolding remove_finalizers
      remove_finalizers-AtLeast = search (confirmed_rules, remove_managed-AtLeast) depth 9
        where
          remove_managed-AtLeast :
              (r : Result Organization) → Keeps (AtLeast n) (remove_managed_finalizer p c r)
          remove_managed-AtLeast (ok latest) = search confirmed_rules depth 9
          remove_managed-AtLeast (err e) = search confirmed_rules

      pub cleanup-AtLeast : (now : Time) → Keeps (AtLeast n) (cleanup_secrets_after_delete p c now)
      unfolding cleanup_secrets_after_delete
      cleanup-AtLeast now =
          search
            (confirmed_rules, delete_stored-AtLeast, save_status-AtLeast, remove_finalizers-AtLeast)
            depth 9
