-- ===== src/Mongo/Client/Listed.antt =====
-- Which replies to a search list no organization, described by status and document.
use custome_provider_mongo_d.Prelude.{
  ◌≡◌, ◌↔◌, refl, ap, ◌∙◌, Bool, true, false, not, ◌&&◌, ◌||◌, List, [], ◌∷◌, arith, leb, nat_eq,
  if◌then◌else◌, sym,
}
use custome_provider_mongo_d.Go.Fault.{Fault}
use custome_provider_mongo_d.Go.Exec.{Result, ok, err}
use custome_provider_mongo_d.Go.Json.{
  Json, null, bool, num, str, arr, obj, Items, nil, cons, Fields, end, field, Document, malformed,
  json, Decoded, equal_fold, read_fields, checked,
}
use custome_provider_mongo_d.Go.Struct.{into_field, read_struct, read_slice, read_elements, decode}
use custome_provider_mongo_d.Mongo.Service.{Organization}
use custome_provider_mongo_d.Mongo.Http.{
  Transport, HttpReply, status_fault, api_error_of, unreachable, response, after_reply, wrap_result,
}
use custome_provider_mongo_d.Mongo.Payload.{read_results, no_organization}
use custome_provider_mongo_d.Mongo.Client.{organizations_result, read_organization}

module _ (t : Transport) where
  abbrev read_listed : Json → Decoded Organization → Decoded Organization
  read_listed = read_struct (read_organization t)

  -- Every entry is null, or an object whose fields have the types of an organization's.
  abbrev readable : Items → Bool
  readable nil = true
  readable (cons j js) =
      (read_listed j (record { value = no_organization; well_typed = true })).well_typed
      && readable js

  -- After a value of `results`: whether the list is empty, given the answers for the fields that follow
  -- if it is, and if it is not. A value of another type is an error.
  abbrev after_value : Json → Bool → Bool → Bool
  after_value null emptied filled = emptied
  after_value (arr nil) emptied filled = emptied
  after_value (arr (cons j js)) emptied filled = readable (cons j js) && filled
  after_value (obj fs) emptied filled = false
  after_value (str s) emptied filled = false
  after_value (num n) emptied filled = false
  after_value (bool b) emptied filled = false

  -- All `results` of the fields are readable lists or null, and the last is an empty list or null. Where
  -- there is none, the list is what it was.
  abbrev none_listed : Bool → Fields → Bool
  none_listed empty end = empty
  none_listed empty (field k v fs) =
      let emptied = none_listed true fs in
      let filled = none_listed false fs in
      let unchanged = none_listed empty fs in
      if equal_fold k "results" then after_value v emptied filled else unchanged

  abbrev pub lists_none : Document → Bool
  lists_none malformed = false
  lists_none (json null) = true
  lists_none (json (obj fs)) = none_listed true fs
  lists_none (json (arr js)) = false
  lists_none (json (str s)) = false
  lists_none (json (num n)) = false
  lists_none (json (bool b)) = false

  -- A success with no content, or with a document that lists no organization.
  unfoldable pub AnsweredNone : HttpReply → Type 0
  AnsweredNone (unreachable e) = ⊥
  AnsweredNone (response status body) =
      (not (leb 400 status) && (nat_eq status 204 || lists_none body)) ≡ true

  abbrev is_empty : List Organization → Bool
  is_empty [] = true
  is_empty (o ∷ l) = false

  abbrev empty_read : Decoded (List Organization) → Bool
  empty_read d = d.well_typed && is_empty d.value

  readable_lem :
      (js : Items) → (read_elements read_listed no_organization js).well_typed ≡ readable js
  unfolding read_elements
  readable_lem nil = refl
  readable_lem (cons j js) =
      ap
        (λ b.
          (read_listed j (record { value = no_organization; well_typed = true })).well_typed && b)
        (readable_lem js)

  abbrev read_list : Json → Decoded (List Organization) → Decoded (List Organization)
  read_list = read_slice read_listed no_organization

  read_list_lem :
      (v : Json) (d : Decoded (List Organization)) (k : Bool → Bool)
      → ((read_list v d).well_typed && k (is_empty (read_list v d).value))
        ≡ (d.well_typed && after_value v (k true) (k false))
  unfolding read_slice read_elements
  read_list_lem null d k = refl
  read_list_lem (arr nil) d k = ground arith
  read_list_lem (arr (cons j js)) d k = ground (arith, readable_lem js)
  read_list_lem (obj fs) d k = ground arith
  read_list_lem (str s) d k = ground arith
  read_list_lem (num n) d k = ground arith
  read_list_lem (bool b) d k = ground arith

  chosen_lem :
      (b : Bool) (k : Bool → Fields → Bool) (fs : Fields) (v : Json)
      (d : Decoded (List Organization))
      → (((d : Decoded (List Organization))
          → empty_read (read_fields read_list "results" fs d)
            ≡ (d.well_typed && k (is_empty d.value) fs)))
      → empty_read (read_fields read_list "results" fs (if b then read_list v d else d)) ≡ (
          d.well_typed
          && (if b then after_value v (k true fs) (k false fs) else k (is_empty d.value) fs))
  chosen_lem true k fs v d rest = rest (read_list v d) ∙ read_list_lem v d (λ b. k b fs)
  chosen_lem false k fs v d rest = rest d

  empty_read_lem :
      (fs : Fields) (d : Decoded (List Organization))
      → empty_read (read_fields read_list "results" fs d)
        ≡ (d.well_typed && none_listed (is_empty d.value) fs)
  unfolding read_fields
  empty_read_lem end d = refl
  empty_read_lem (field k v fs) d =
      chosen_lem (equal_fold k "results") none_listed fs v d (empty_read_lem fs)

  checked_lem :
      (d : Decoded (List Organization))
      → (checked d.well_typed d.value ≡ ok []) ↔ (empty_read d ≡ true)
  checked_lem d = decided d.well_typed d.value
    where
      decided :
          (b : Bool) (l : List Organization) → (checked b l ≡ ok []) ↔ ((b && is_empty l) ≡ true)
      decided true [] = (λ e. refl, λ e. refl)
      decided true (o ∷ l) = (λ e. ground (arith, e), λ e. ground (arith, e))
      decided false l = (λ e. ground (arith, e), λ e. ground (arith, e))

  lists_none_lem :
      (body : Document)
      → (decode (read_results read_listed no_organization) [] body ≡ ok [])
        ↔ (lists_none body ≡ true)
  unfolding into_field
  lists_none_lem malformed = (λ e. ground (arith, e), λ e. ground (arith, e))
  lists_none_lem (json null) = (λ e. refl, λ e. refl)
  lists_none_lem (json (obj fs)) =
      let read = read_fields read_list "results" fs (record { value = []; well_typed = true }) in
      let same = empty_read_lem fs (record { value = []; well_typed = true }) in
      let (to, from) = checked_lem read in (λ h. sym same ∙ to h, λ h. from (same ∙ h))
  lists_none_lem (json (arr js)) = (λ e. ground (arith, e), λ e. ground (arith, e))
  lists_none_lem (json (str s)) = (λ e. ground (arith, e), λ e. ground (arith, e))
  lists_none_lem (json (num n)) = (λ e. ground (arith, e), λ e. ground (arith, e))
  lists_none_lem (json (bool b)) = (λ e. ground (arith, e), λ e. ground (arith, e))

  replied_lem :
      (failed bare : Bool) (f : Fault) (body : Document)
      → ((if failed
            then err f
            else if bare
            then ok []
            else wrap_result "decode response"
                (decode (read_results read_listed no_organization) [] body))
          ≡ ok [])
        ↔ ((not failed && (bare || lists_none body)) ≡ true)
  replied_lem true bare f body = (λ e. ground (arith, e), λ e. ground (arith, e))
  replied_lem false true f body = (λ e. refl, λ e. refl)
  replied_lem false false f body =
      let (to, from) = lists_none_lem body in
      let (unwrap, rewrap) =
        wrapped_lem (decode (read_results read_listed no_organization) [] body) in
      (λ e. to (unwrap e), λ e. rewrap (from e))
    where
      wrapped_lem :
          (r : Result (List Organization)) → (wrap_result "decode response" r ≡ ok []) ↔ (r ≡ ok [])
      wrapped_lem (ok l) = (λ e. e, λ e. e)
      wrapped_lem (err e) = (λ h. ground (arith, h), λ h. ground (arith, h))

  pub AnsweredNone-after_reply :
      (reply : HttpReply)
      → (after_reply (organizations_result t) reply ≡ ok []) ↔ AnsweredNone reply
  unfolding AnsweredNone
  AnsweredNone-after_reply (unreachable e) = (λ h. ground (arith, h), λ h. absurd h)
  AnsweredNone-after_reply (response status body) =
      replied_lem (leb 400 status) (nat_eq status 204)
        (status_fault status (api_error_of status body)) body
