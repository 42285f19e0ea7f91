-- ===== src/Mongo/Client/Answers.antt =====
-- What the Atlas client's answers say about the replies of the server.
use custome_provider_mongo_d.Mongo.Client.Listed.{AnsweredNone, AnsweredNone-after_reply}
use custome_provider_mongo_d.Prelude.{
  Bool-cases, ◌≡◌, ◌≢◌, ◌↔◌, ◌⊎◌, inl, inr, refl, ℕ, String, ◌<>◌, true, ◌||◌, none, some, List, [],
  ◌∷◌, arith, eq_iff, leb, nat_eq, sym, ◌∙◌,
}
use custome_provider_mongo_d.Go.Fault.{
  ApiError, not_found, api, Fault, is_not_found_error, is_unauthorized_fault, is_conflict_error,
  is_retryable_error, retryable, wrapped, plain,
}
use custome_provider_mongo_d.Go.Exec.{Result, ok, err}
use custome_provider_mongo_d.Go.Url.{query_escape}
use custome_provider_mongo_d.Go.Json.{Document}
use custome_provider_mongo_d.Mongo.Service.{Organization}
use custome_provider_mongo_d.Mongo.Http.{
  Transport, HttpRequest, HttpReply, unreachable, response, Target, do_request, make_request,
  after_reply, status_fault, api_error_of, atlas_v1_base, content_type_application,
}
use custome_provider_mongo_d.Mongo.Payload.{still_exists_error, first_found}
use custome_provider_mongo_d.Mongo.Client.{
  verify_organization_deletion, get_organization_by_name, organization_result, organizations_result,
  false,
}

-- A request that is sent and answered with a status of 400 or more fails, and the kind of the error
-- is the status's: not found for 404, unauthorized for 401 and 403, conflict for 409, retryable for
-- 429 and from 500 on, and none of them for every other status.
pub do_request-status_fault :
    {A : Type 0} (result : Target A) (t : Transport) (r : HttpRequest) (status : ℕ)
    (body : Document)
    → t.refused r ≡ none
    → t.send r ≡ response status body
    → leb 400 status ≡ true
    → (e : Fault) × (do_request result t r ≡ err e)
      × (is_not_found_error (some e) ≡ nat_eq status 404)
      × (is_unauthorized_fault (some e) ≡ (nat_eq status 401 || nat_eq status 403))
      × (is_conflict_error (some e) ≡ nat_eq status 409)
      × (is_retryable_error (some e) ≡ (nat_eq status 429 || leb 500 status))
unfolding do_request status_fault is_not_found_error is_unauthorized_fault is_conflict_error
    is_retryable_error
do_request-status_fault result t r status body sent reply failing = (
  status_fault status (api_error_of status body),
  ground arith,
  ground arith,
  ground arith,
  ground arith,
  ground arith,
)

-- A request of the v1 API without a body.
abbrev pub get_request : String → HttpRequest
get_request endpoint = record {
  method = "GET";
  url = atlas_v1_base <> endpoint;
  payload = none;
  content_type = content_type_application;
  accept = "application/json";
}

abbrev pub organization_reply : Transport → String → HttpReply
organization_reply t id = t.send (get_request ("/orgs/" <> id))

abbrev pub IsSent : Transport → String → Type 0
IsSent t endpoint = t.refused (get_request endpoint) ≡ none

verify_organization_deletion_lem :
    (t : Transport) (id : String)
    → id ≢ ""
    → IsSent t ("/orgs/" <> id)
    → verify_organization_deletion t id
      ≡ still_exists_error id (after_reply (organization_result t) (organization_reply t id))
unfolding verify_organization_deletion make_request do_request
verify_organization_deletion_lem t id given sent = ground (arith, eq_iff id "")

-- The replies that say that there is no such organization.
unfoldable pub Answered404 : HttpReply → Type 0
Answered404 (unreachable e) = ⊥
Answered404 (response status body) = status ≡ 404

result_cases : {A : Type 0} (r : Result A) → ((a : A) × (r ≡ ok a)) ⊎ ((e : Fault) × (r ≡ err e))
result_cases (ok a) = inl (a, refl)
result_cases (err e) = inr (e, refl)

-- A reply becomes an answer that is no 404, or an error that is a not-found error for a 404 only.
abbrev IsTold : {A : Type 0} → HttpReply → Result A → Type 0
IsTold reply (ok a) = ¬ Answered404 reply
IsTold reply (err e) = (is_not_found_error (some e) ≡ true) ↔ Answered404 reply

after_reply-IsTold :
    {A : Type 0} (result : Target A) (reply : HttpReply) → IsTold reply (after_reply result reply)
unfolding status_fault is_not_found_error Answered404
after_reply-IsTold result (unreachable e) = (λ h. ground (arith, h), λ h. absurd h)
after_reply-IsTold result (response status body) = elim (Bool-cases (leb 400 status)) [
  | inl failing ↦ rw failing (λ h. ground (arith, h), λ h. ground (arith, h))
  | inr fine ↦ elim (Bool-cases (nat_eq status 204)) [
    | inl empty ↦ rw (fine, empty) (λ h. ground (arith, h))
    | inr full ↦ elim (result_cases (result.read body)) [
      | inl (a, e) ↦ rw (fine, full, e) (λ h. ground (arith, h))
      | inr (e, f) ↦ rw (fine, full, f) (λ h. ground (arith, h), λ h. ground (arith, h))
    ]
  ]
]

still_exists_error-IsTold :
    (id : String) (reply : HttpReply) (r : Result Organization)
    → IsTold reply r
    → (still_exists_error id r ≡ ok tt) ↔ Answered404 reply
still_exists_error-IsTold id reply (ok org) h = (λ e. ground (arith, e), λ e. absurd (h e))
still_exists_error-IsTold id reply (err e) h =
    (λ deleted. h.0 (ground (arith, deleted)), λ answered. rw (h.1 answered) refl)

-- For a request that is sent, the deletion of an organization counts as verified exactly where the
-- server answers 404 to the request for it.
pub verify_organization_deletion_iff :
    (t : Transport) (id : String)
    → id ≢ ""
    → IsSent t ("/orgs/" <> id)
    → (verify_organization_deletion t id ≡ ok tt) ↔ Answered404 (organization_reply t id)
verify_organization_deletion_iff t id given sent =
    rw (verify_organization_deletion_lem t id given sent) (
      still_exists_error-IsTold id _ _
        (after_reply-IsTold (organization_result t) (organization_reply t id)))

first_found-IsTold :
    (reply : HttpReply) (r : Result (List Organization))
    → IsTold reply r
    → (first_found r ≡ ok none) ↔ (Answered404 reply ⊎ (r ≡ ok []))
first_found-IsTold reply (ok []) h = (λ e. inr refl, λ e. refl)
first_found-IsTold reply (ok (org ∷ orgs)) h = (
  λ e. ground (arith, e),
  λ a. elim a [ inl found ↦ absurd (h found) | inr e ↦ ground (arith, e) ],
)
first_found-IsTold reply (err e) h = (
  λ none_known. inl (h.0 (ground (arith, none_known))),
  λ a. elim a [ inl found ↦ rw (h.1 found) refl | inr e ↦ ground (arith, e) ],
)

abbrev pub search_reply : Transport → String → HttpReply
search_reply t name = t.send (get_request ("/orgs?name=" <> query_escape name))

get_organization_by_name_lem :
    (t : Transport) (name : String)
    → name ≢ ""
    → IsSent t ("/orgs?name=" <> query_escape name)
    → get_organization_by_name t name
      ≡ first_found (after_reply (organizations_result t) (search_reply t name))
unfolding get_organization_by_name make_request do_request
get_organization_by_name_lem t name given sent = ground (arith, eq_iff name "")

-- For a search that is sent, the client answers that there is no organization of a name exactly where
-- the server answers 404, or, with a status below 400, no content (204) or a document that lists none:
-- null, or an object without `results` or whose last `results` is null or an empty list.
pub get_organization_by_name_iff :
    (t : Transport) (name : String)
    → name ≢ ""
    → IsSent t ("/orgs?name=" <> query_escape name)
    → (get_organization_by_name t name ≡ ok none)
      ↔ (Answered404 (search_reply t name) ⊎ AnsweredNone t (search_reply t name))
get_organization_by_name_iff t name given sent =
    let (to, from) =
      first_found-IsTold (search_reply t name)
        (after_reply (organizations_result t) (search_reply t name))
        (after_reply-IsTold (organizations_result t) (search_reply t name)) in
    let (listed, unlisted) = AnsweredNone-after_reply t (search_reply t name) in
    let same = get_organization_by_name_lem t name given sent in
    (
      λ h. elim (to (sym same ∙ h)) [
        | inl missing ↦ inl missing
        | inr none_read ↦ inr (listed none_read)
      ],
      λ a.
          same
          ∙ from (elim a [ inl missing ↦ inl missing | inr none_told ↦ inr (unlisted none_told) ]),
    )

first_found-is_not_found_error :
    (r : Result (List Organization)) (e : Fault)
    → first_found r ≡ err e
    → is_not_found_error (some e) ≡ false
first_found-is_not_found_error (ok []) e h = ground (arith, h)
first_found-is_not_found_error (ok (org ∷ orgs)) e h = ground (arith, h)
first_found-is_not_found_error (err f) e h = ground (arith, h)

-- The search for a name never fails with a not-found error.
pub get_organization_by_name-is_not_found_error :
    (t : Transport) (name : String) (e : ApiError)
    → name ≢ ""
    → IsSent t ("/orgs?name=" <> query_escape name)
    → get_organization_by_name t name ≢ err (not_found e)
unfolding is_not_found_error
get_organization_by_name-is_not_found_error t name e given sent h = ground (
  arith,
  first_found-is_not_found_error (after_reply (organizations_result t) (search_reply t name))
      (not_found e) (rw (get_organization_by_name_lem t name given sent) at h),
)

-- The replies of an outage: none, too many requests, or a server error.
unfoldable pub IsOutage : HttpReply → Type 0
IsOutage (unreachable e) = Unit
IsOutage (response status body) = (nat_eq status 429 || leb 500 status) ≡ true

after_reply_outage :
    {A : Type 0} (result : Target A) (reply : HttpReply)
    → IsOutage reply
    → (e : Fault) × (why : String) × (after_reply result reply ≡ err (retryable e why))
unfolding status_fault IsOutage
after_reply_outage result (unreachable e) h = (e, "HTTP request failed (network error)", refl)
after_reply_outage result (response status body) h =
    (api (api_error_of status body), "retryable HTTP error", ground (arith, h))

module _ (t : Transport) (id : String) (given : id ≢ "") (sent : IsSent t ("/orgs/" <> id)) where
  -- In an outage the verification of a deletion fails with a wrapped retryable error.
  pub verify_organization_deletion_outage :
      IsOutage (organization_reply t id)
      → (e : Fault) × (why : String) × (verify_organization_deletion t id
          ≡ err (wrapped "failed to verify organization deletion" (retryable e why)))
  unfolding is_not_found_error
  verify_organization_deletion_outage h =
      let (e, why, failed) =
        after_reply_outage (organization_result t) (organization_reply t id) h in
      (e, why, rw (verify_organization_deletion_lem t id given sent, failed) refl)

  -- Of an organization that the server has, it reports that it still exists.
  pub verify_organization_deletion_found :
      (org : Organization)
      → after_reply (organization_result t) (organization_reply t id) ≡ ok org
      → verify_organization_deletion t id ≡ err (plain ("organization " <> (id <> " still exists")))
  verify_organization_deletion_found org found =
      rw (verify_organization_deletion_lem t id given sent, found) refl
