-- ===== src/Atlas/Replies.antt =====
-- How the older Atlas client answers to the server's replies.
use custome_provider_mongo_d.Prelude.{
  ℕ, ◌≡◌, refl, sym, ap, ◌∙◌, String, true, false, none, some, List, ◌∷◌, nat_eq, ◌↔◌, ◌⊎◌, inl,
  inr, Bool-cases, arith,
}
use custome_provider_mongo_d.Go.Exec.{Result, ok, err, from_result, done, panicked, ◌>>=◌}
use custome_provider_mongo_d.Go.Struct.{read_struct, decode}
use custome_provider_mongo_d.Atlas.{
  Credentials, Client, GetOrgResponse, ErrorResponse, Body, response, Sent, Transport, read_get_org,
  no_org, failure, error_of, read_all, after_get, after_delete, get_request, get_organization,
  delete_request, delete_organization, exchange,
}

failure_not_done :
    {A : Type 0} (status : ℕ) (reason : ErrorResponse → String) (r : Result ErrorResponse) (a : A)
    (sent : List Sent)
    → (failure status reason r sent).0 ≡ done a
    → ⊥
unfolding ◌>>=◌
failure_not_done status reason (ok r) a sent h = ground (arith, h)
failure_not_done status reason (err e) a sent h = ground (arith, h)

-- What a reply with this status and body says of an organization, without an error.
pub Answers : ℕ → Result Body → GetOrgResponse → Type 0
Answers status answer r =
    (body : Body) × (answer ≡ ok body)
    × (((status ≡ 200) × (decode (read_struct read_get_org) no_org body.document ≡ ok r))
        ⊎ ((status ≡ 404) × (no_org ≡ r)))

from_result_done : {A : Type 0} (r : Result A) (a : A) → from_result r ≡ done a → r ≡ ok a
from_result_done r a h = ground (arith, h)

nat_eq_lem : (m n : ℕ) → nat_eq m n ≡ true → m ≡ n
nat_eq_lem m n h = ground (arith, h)

found_reply :
    (status : ℕ) (body : Body) (sent : List Sent)
    → nat_eq status 200 ≡ true
    → after_get status body sent
      ≡ (from_result (decode (read_struct read_get_org) no_org body.document), sent)
found_reply status body sent h = rw h refl

missing_reply :
    (status : ℕ) (body : Body) (sent : List Sent)
    → nat_eq status 200 ≡ false
    → nat_eq status 404 ≡ true
    → after_get status body sent ≡ (done no_org, sent)
unfolding ◌>>=◌
missing_reply status body sent other h = rw other (rw h refl)

other_reply :
    (status : ℕ) (body : Body) (sent : List Sent)
    → nat_eq status 200 ≡ false
    → nat_eq status 404 ≡ false
    → after_get status body sent ≡ failure status (λ r. body.text) (error_of body) sent
other_reply status body sent other h = rw other (rw h refl)

done_injective : {A : Type 0} (a b : A) → done a ≡ done b → a ≡ b
done_injective a b h = cc h

after_get_done :
    (status : ℕ) (body : Body) (r : GetOrgResponse) (sent : List Sent)
    → (after_get status body sent).0 ≡ done r
    → ((status ≡ 200) × (decode (read_struct read_get_org) no_org body.document ≡ ok r))
      ⊎ ((status ≡ 404) × (no_org ≡ r))
unfolding ◌>>=◌
after_get_done status body r sent h = elim (Bool-cases (nat_eq status 200)) [
  | inl found ↦ inl (
    nat_eq_lem _ _ found,
    from_result_done _ r (sym (ap (λ x. x.0) (found_reply status body sent found)) ∙ h),
  )
  | inr other ↦ elim (Bool-cases (nat_eq status 404)) [
    | inl missing ↦ inr (
      nat_eq_lem _ _ missing,
      done_injective _ _ (sym (ap (λ x. x.0) (missing_reply status body sent other missing)) ∙ h),
    )
    | inr neither ↦ absurd (
        failure_not_done status (λ e. body.text) (error_of body) r sent
          (sym (ap (λ x. x.0) (other_reply status body sent other neither)) ∙ h))
  ]
]

done_after_get :
    (status : ℕ) (body : Body) (r : GetOrgResponse) (sent : List Sent)
    → ((status ≡ 200) × (decode (read_struct read_get_org) no_org body.document ≡ ok r))
      ⊎ ((status ≡ 404) × (no_org ≡ r))
    → (after_get status body sent).0 ≡ done r
unfolding ◌>>=◌
done_after_get status body r sent (inl (found, read)) = rw found (rw read refl)
done_after_get status body r sent (inr (missing, empty)) = rw missing (ap done empty)

ok_injective : {A : Type 0} (a b : A) → ok a ≡ ok b → a ≡ b
ok_injective a b h = cc h

read_get_iff :
    (status : ℕ) (answer : Result Body) (r : GetOrgResponse) (sent : List Sent)
    → ((do body ← read_all answer; after_get status body) sent).0 ≡ done r ↔ Answers status answer r
unfolding Answers ◌>>=◌
read_get_iff status (ok body) r sent = (
  λ h. (body, refl, after_get_done status body r sent h),
  λ (b, same, says). rw (ok_injective body b same) (done_after_get status b r sent says),
)
read_get_iff status (err e) r sent =
    (λ h. absurd (ground (arith, h)), λ (b, same, says). absurd (ground (arith, same)))

-- A status other than 204 is never a success.
after_delete_done :
    (status : ℕ) (answer : Result Body) (sent : List Sent)
    → (after_delete status answer sent).0 ≡ done tt
    → status ≡ 204
unfolding ◌>>=◌
after_delete_done status (ok body) sent h =
    ground
      (arith, h, failure_not_done status (λ (r : ErrorResponse). r.reason) (error_of body) tt sent)
after_delete_done status (err e) sent h = ground (arith, h)

done_after_delete :
    (status : ℕ) (answer : Result Body) (sent : List Sent)
    → status ≡ 204
    → (after_delete status answer sent).0 ≡ done tt
unfolding ◌>>=◌
done_after_delete status answer sent h = rw h refl

after_delete_sent :
    (status : ℕ) (answer : Result Body) (sent : List Sent)
    → (after_delete status answer sent).1 ≡ sent
unfolding ◌>>=◌
after_delete_sent status (ok body) sent = ground arith
after_delete_sent status (err e) sent = ground arith

module _ (t : Transport) (c : Client) (org_id : String) (sent : List Sent) (creds : Credentials)
    (owned : c.org_credentials ≡ some creds) (status : ℕ) (answer : Result Body) where
  module _ (accepted : t.refused (get_request t org_id) ≡ none)
      (replied : t.send sent creds (get_request t org_id) ≡ response status answer) where
    exchanged :
        get_organization t c org_id sent
        ≡ (do body ← read_all answer; after_get status body) ((creds, get_request t org_id) ∷ sent)
    unfolding get_organization exchange ◌>>=◌
    exchanged = rw owned (rw accepted (rw replied refl))

    -- With organization credentials, for a request that is sent and answered, `GetOrganization` returns a
    -- response without an error exactly where the body can be read and the status is 200 with a document
    -- that gives the response, or the status is 404 and the response is the empty one.
    pub get_organization_iff :
        (r : GetOrgResponse)
        → ((get_organization t c org_id sent).0 ≡ done r) ↔ Answers status answer r
    get_organization_iff r =
        rw exchanged (read_get_iff status answer r ((creds, get_request t org_id) ∷ sent))

  module _ (accepted : t.refused (delete_request t org_id) ≡ none)
      (replied : t.send sent creds (delete_request t org_id) ≡ response status answer) where
    deleted :
        delete_organization t c org_id sent
        ≡ after_delete status answer ((creds, delete_request t org_id) ∷ sent)
    unfolding delete_organization exchange ◌>>=◌
    deleted = rw accepted (rw owned (rw replied refl))

    -- `DeleteOrganization` succeeds exactly where the server answers 204 to a POST of the organization's URL,
    -- which is the only request that it makes.
    delete_organization_iff :
        (((delete_organization t c org_id sent).0 ≡ done tt) ↔ (status ≡ 204))
        × ((delete_organization t c org_id sent).1 ≡ (creds, delete_request t org_id) ∷ sent)
        × ((delete_request t org_id).method ≡ "POST")
    delete_organization_iff = rw deleted (
      (after_delete_done status answer _, done_after_delete status answer _),
      after_delete_sent status answer _,
      refl,
    )

-- `DeleteOrganization` panics exactly where the client has no organization credentials and the request is
-- not refused, and `GetOrganization` never does.
pub delete_organization_panics_iff :
    (t : Transport) (c : Client) (org_id : String) (sent : List Sent)
    → (((delete_organization t c org_id sent).0 ≡ panicked)
        ↔ ((c.org_credentials ≡ none) × (t.refused (delete_request t org_id) ≡ none)))
      × ((get_organization t c org_id sent).0 ≡ panicked → ⊥)
unfolding delete_organization get_organization exchange ◌>>=◌
delete_organization_panics_iff t c org_id sent = (
  (λ h. ground (arith, h), λ (missing, accepted). rw accepted (rw missing refl)),
  λ h. ground (arith, h),
)
