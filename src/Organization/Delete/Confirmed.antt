-- ===== src/Organization/Delete/Confirmed.antt =====
-- What `Delete` knows when it succeeds.
use custome_provider_mongo_d.Prelude.{
  ℕ, suc, ◌<◌, ◌≡◌, ◌≢◌, refl, String, true, false, some, List, ◌∷◌, ◌==◌, if◌then◌else◌, eq_refl,
  eq_iff, arith, Bool-cases, inl, inr,
}
use custome_provider_mongo_d.Go.Fault.{Fault, is_not_found_error}
use custome_provider_mongo_d.Go.Exec.{Result, ok, err, done, failed, throw, ◌>>=◌}
use custome_provider_mongo_d.Go.Keeps.{Keeps}
use custome_provider_mongo_d.Go.Runs.{Leads, Leads-bind, Keeps-Leads, attempt_leads, Leads-gets}
use custome_provider_mongo_d.Api.Organization.{Organization, Time}
use custome_provider_mongo_d.Mongo.Service.{Credentials}
use custome_provider_mongo_d.Organization.Errors.{
  is_atlas_transient_or_opaque_delete_err, is_unauthorized_error,
}
use custome_provider_mongo_d.Organization.Platform.{
  Platform, External, State, Go, Call, call, atlas, verify_organization_deletion,
  delete_organization,
}
use custome_provider_mongo_d.Organization.Answers.{Leads-answer}
use custome_provider_mongo_d.Organization.Delete.{
  delete, precheck, after_precheck, delete_with_org_key, after_fetch, delete_in_atlas, after_delete,
  verify_deleted, after_verify, cleanup_secrets_after_delete, fail_attempt, fail_verification,
  is_secret_missing, delete_existing, cleanup_ips, delete_nothing,
}
use custome_provider_mongo_d.Organization.Secrets.{fetch_org_credentials}
use custome_provider_mongo_d.Organization.Delete.Confirmations.{
  is_missing, is_gone, confirmations, AtLeast, AtLeast-Only, cleanup-AtLeast, save_status-AtLeast,
  confirmed_rules, AtLeast-call,
}
use custome_provider_mongo_d.Organization.Delete.Failure.{
  fetch-Only, cleanup_ips-Only, record_attempt-Only,
}

-- No error of Atlas looks like an outage or is opaque, and none of reading the credentials like a missing
-- secret.
pub record IsClear (p : Platform) (c : External) : Type 0 where
  pub verifying :
      (h : List Call) (creds : Credentials) (id : String) (e : Fault)
      → (p.service h creds).verify_organization_deletion id ≡ err e
      → is_atlas_transient_or_opaque_delete_err (some e) ≡ false
  pub deleting :
      (h : List Call) (creds : Credentials) (id : String) (e : Fault)
      → (p.service h creds).delete_organization id ≡ err e
      → is_atlas_transient_or_opaque_delete_err (some e) ≡ false
  pub fetching :
      (s : State) (e : Fault)
      → (fetch_org_credentials p c s.cr s).0 ≡ failed e
      → is_secret_missing p c e ≡ false

module _ (p : Platform) (c : External) (id : String) (n : ℕ) where
  -- Before, and after Atlas answered once more that the organization does not exist.
  abbrev Open : State → Type 0
  Open = AtLeast p id n

  abbrev Confirmed : State → Type 0
  Confirmed = AtLeast p id (suc n)

  Leads-throw : {A : Type 0} (e : Fault) → Leads Open (throw {A = A} e) Confirmed
  unfolding ◌>>=◌
  Leads-throw e = record { at = λ s a h d. absurd (ground (arith, d)) }

  fail_attempt-Leads : (msg : String) (e : Fault) → Leads Open (fail_attempt p c msg e) Confirmed
  unfolding fail_attempt
  fail_attempt-Leads msg e = Leads-bind _ _ (Keeps-Leads _ (search confirmed_rules)) (λ a.
      Leads-bind _ _ (Keeps-Leads _ (search confirmed_rules))
        (λ b. Leads-bind _ _ (Keeps-Leads _ (save_status-AtLeast p id c)) (λ d. Leads-throw _)))

  fail_verification-Leads : (e : Fault) → Leads Open (fail_verification p c e) Confirmed
  unfolding fail_verification
  fail_verification-Leads e =
      Leads-bind _ _ (Keeps-Leads _ (search confirmed_rules))
        (λ a. Leads-bind _ _ (Keeps-Leads _ (save_status-AtLeast p id c)) (λ d. Leads-throw _))

  fetched : (cr : Organization) → Keeps Open (fetch_org_credentials p c cr)
  fetched cr = AtLeast-Only p id _ (λ base. fetch-Only p c cr)

  cleanup-Leads : (now : Time) → Leads Confirmed (cleanup_secrets_after_delete p c now) Confirmed
  cleanup-Leads now = Keeps-Leads _ (cleanup-AtLeast p id c now)

  module _ (clear : IsClear p c) (creds : Credentials) (now : Time) where
    abbrev verified : State → State
    verified s = record s { calls = atlas creds (verify_organization_deletion id) ∷ s.calls }

    abbrev verify_answer : State → Result (Unit {0})
    verify_answer s = (p.service s.calls creds).verify_organization_deletion id

    -- A call that does not confirm it, and one that does.
    asked : (s : State) (call : Call) → Open s → Open (record s { calls = call ∷ s.calls })
    unfolding call
    asked s called h = (AtLeast-call p id called (λ _. ok tt)).at s h

    gone : (s : State) → Open s → is_gone (verify_answer s) ≡ true → Confirmed (verified s)
    unfolding confirmations
    gone s h g = record { many = ground (arith, h.many, g, eq_refl id) }

    -- Where the action returns, Atlas has confirmed it.
    abbrev Ends : Go (Unit {0}) → State → Type 0
    Ends m s = (b : Unit {0}) → (m s).0 ≡ done b → Confirmed (m s).1

    after_verify-Ends :
        (s : State) (r : Result (Unit {0}))
        → verify_answer s ≡ r
        → Open s
        → Ends (after_verify p c now r) (verified s)
    after_verify-Ends s (ok u) same h =
        λ b d. (cleanup-Leads now).at (verified s) b (gone s h (rw same refl)) d
    after_verify-Ends s (err e) same h = elim (Bool-cases (is_not_found_error (some e))) [
      | inl missing ↦
          rw (clear.verifying s.calls creds id e same, missing)
            (λ b d. (cleanup-Leads now).at (verified s) b (gone s h (rw same missing)) d)
      | inr other ↦
          rw (clear.verifying s.calls creds id e same, other)
            (λ b d. (fail_verification-Leads e).at (verified s) b (asked s _ h) d)
    ]

    verify_deleted-Leads : Leads Open (verify_deleted p c creds id now) Confirmed
    unfolding verify_deleted
    verify_deleted-Leads =
        Leads-answer _ _ _ (λ s b h d. after_verify-Ends s (verify_answer s) refl h b d)

    abbrev requested : State → State
    requested s = record s { calls = atlas creds (delete_organization id) ∷ s.calls }

    abbrev delete_answer : State → Result (Unit {0})
    delete_answer s = (p.service s.calls creds).delete_organization id

    unknown : (s : State) → Open s → is_missing (delete_answer s) ≡ true → Confirmed (requested s)
    unfolding confirmations
    unknown s h g = record { many = ground (arith, h.many, g, eq_refl id) }

    after_delete-Ends :
        (s : State) (r : Result (Unit {0}))
        → delete_answer s ≡ r
        → Open s
        → Ends (after_delete p c creds id now r) (requested s)
    after_delete-Ends s (ok u) same h =
        λ b d. verify_deleted-Leads.at (requested s) b (asked s _ h) d
    after_delete-Ends s (err e) same h = elim (Bool-cases (is_not_found_error (some e))) [
      | inl missing ↦
          rw missing
            (λ b d. (cleanup-Leads now).at (requested s) b (unknown s h (rw same missing)) d)
      | inr other ↦
          rw (other, clear.deleting s.calls creds id e same)
            (elim (Bool-cases (is_unauthorized_error (some e))) [
              | inl denied ↦
                  rw denied (λ b d. (fail_attempt-Leads _ e).at (requested s) b (asked s _ h) d)
              | inr allowed ↦
                  rw allowed (λ b d. (fail_attempt-Leads _ e).at (requested s) b (asked s _ h) d)
            ])
    ]

    delete_in_atlas-Leads : Leads Open (delete_in_atlas p c creds id now) Confirmed
    unfolding delete_in_atlas
    delete_in_atlas-Leads =
        Leads-answer _ _ _ (λ s b h d. after_delete-Ends s (delete_answer s) refl h b d)

  module _ (clear : IsClear p c) (now : Time) where
    after_fetch-Ends :
        (s : State) (e : Fault)
        → (fetch_org_credentials p c s.cr s).0 ≡ failed e
        → Open s
        → Ends clear c.credentials now
            (after_fetch p c id now (err e))
            (fetch_org_credentials p c s.cr s).1
    after_fetch-Ends s e refused h =
        rw (clear.fetching s e refused)
          (λ b d. (fail_attempt-Leads _ e).at _ b ((fetched s.cr).at s h) d)

    delete_with_org_key-Leads : Leads Open (delete_with_org_key p c id now) Confirmed
    unfolding delete_with_org_key
    delete_with_org_key-Leads = Leads-gets _ _ (λ s b h d.
        attempt_leads Confirmed (fetch_org_credentials p c s.cr) (after_fetch p c id now) s
          (λ creds got b d.
            (delete_in_atlas-Leads clear creds now).at _ b ((fetched s.cr).at s h) d)
          (λ e refused. after_fetch-Ends s e refused h) b d)

    after_precheck-Ends :
        (s : State) (r : Result (Unit {0}))
        → verify_answer clear c.credentials now s ≡ r
        → Open s
        → Ends clear c.credentials now
            (after_precheck p c id now r)
            (verified clear c.credentials now s)
    after_precheck-Ends s (ok u) same h = λ b d.
        (cleanup-Leads now).at (verified clear c.credentials now s) b
          (gone clear c.credentials now s h (rw same refl)) d
    after_precheck-Ends s (err e) same h = elim (Bool-cases (is_not_found_error (some e))) [
      | inl missing ↦ rw missing (λ b d.
          (cleanup-Leads now).at (verified clear c.credentials now s) b
            (gone clear c.credentials now s h (rw same missing)) d)
      | inr other ↦
          rw (other, clear.verifying s.calls c.credentials id e same)
            (λ b d.
              delete_with_org_key-Leads.at (verified clear c.credentials now s) b
                (asked clear c.credentials now s _ h) d)
    ]

    precheck-Leads : Leads Open (precheck p c id now) Confirmed
    unfolding precheck
    precheck-Leads =
        Leads-answer _ _ _
          (λ s b h d. after_precheck-Ends s (verify_answer clear c.credentials now s) refl h b d)

  delete_existing-Leads : IsClear p c → Leads Open (delete_existing p c id) Confirmed
  delete_existing-Leads clear = Leads-bind _ _ (Keeps-Leads _ (search confirmed_rules)) (λ now.
      Leads-bind _ _ (Keeps-Leads _ (AtLeast-Only p id _ (λ base. record_attempt-Only p c now)))
        (λ u. precheck-Leads clear now))

  delete_named-Leads :
      IsClear p c
      → (id == "") ≡ false
      → Leads Open
          (cleanup_ips p c id >>= λ u.
            if id == "" then delete_nothing p c else delete_existing p c id)
          Confirmed
  delete_named-Leads clear named = rw named (
      Leads-bind _ _ (Keeps-Leads _ (AtLeast-Only p id _ (λ base. cleanup_ips-Only p c id)))
        (λ u. delete_existing-Leads clear))

-- Where no error of Atlas looks like an outage or is opaque, and none of reading the credentials like a
-- missing secret, a `Delete` of a resource that has an external name succeeds only where one of its own calls
-- told that Atlas has no organization of that name: a check that found it gone or was answered 404, or a
-- deletion that was answered 404.
pub delete_done-confirmations :
    (p : Platform) (c : External) (s : State)
    → IsClear p c
    → p.get_external_name s.cr.metadata ≢ ""
    → (delete p c s).0 ≡ done tt
    → confirmations p (p.get_external_name s.cr.metadata) s.calls
      < confirmations p (p.get_external_name s.cr.metadata) (delete p c s).1.calls
unfolding delete ◌>>=◌
delete_done-confirmations p c s clear named h =
    ((delete_named-Leads p c (p.get_external_name s.cr.metadata) _ clear
        (ground (arith, named, eq_iff (p.get_external_name s.cr.metadata) ""))).at
      s tt (record { many = omega arith }) h).many
