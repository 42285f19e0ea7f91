-- ===== src/Mongo/Http.antt =====
-- `doRequest`, `makeRequest` and `makeV2Request` of internal/clients/mongodb/client.go.
use custome_provider_mongo_d.Prelude.{
  ℕ, String, ◌<>◌, Bool, ◌||◌, Option, none, some, ◌==◌, leb, nat_eq, if◌then◌else◌,
}
use custome_provider_mongo_d.Go.Fault.{
  Fault, ApiError, wrapped, not_found, conflict, unauthorized, retryable, api,
}
use custome_provider_mongo_d.Go.Exec.{Result, ok, err}
use custome_provider_mongo_d.Go.Json.{Json, Fields, Document, Decoded, read_string, read_number}
use custome_provider_mongo_d.Go.Struct.{into_field, read_struct, decode, decode_anyway}

pub record HttpRequest : Type 0 where
  pub method : String
  pub url : String
  pub payload : Option Json
  pub content_type : String
  pub accept : String

pub data HttpReply : Type 0 where
  unreachable : Fault → HttpReply
  response : ℕ → Document → HttpReply

-- Go's HTTP client with digest authentication at one moment, its check of a request before it is
-- sent, and its test for RFC 3339 times.
pub record Transport : Type 0 where
  pub refused : HttpRequest → Option Fault
  pub send : HttpRequest → HttpReply
  pub is_time : String → Bool

abbrev pub atlas_v1_base : String
atlas_v1_base = "https://cloud.mongodb.com/api/atlas/v1.0"

abbrev pub atlas_v2_base : String
atlas_v2_base = "https://cloud.mongodb.com/api/atlas/v2"

abbrev pub atlas_v2_settings_accept : String
atlas_v2_settings_accept = "application/vnd.atlas.2025-03-12+json"

abbrev pub content_type_application : String
content_type_application = "application/json"

abbrev pub read_error_fields : Fields → Decoded ApiError → Decoded ApiError
read_error_fields fs d =
    into_field read_string "reason" (λ (e : ApiError). e.reason) (λ e v. record e { reason = v }) fs
      (into_field read_string "detail" (λ (e : ApiError). e.detail) (λ e v. record e { detail = v })
        fs
        (into_field read_number "error" (λ (e : ApiError). e.code) (λ e v. record e { code = v }) fs
          d))

abbrev pub no_error : ApiError
no_error = record { code = 0; detail = ""; reason = "" }

-- The error of a response, whose code is the status where the body has none.
unfoldable pub api_error_of : ℕ → Document → ApiError
api_error_of status body =
    let e = decode_anyway (read_struct read_error_fields) no_error body in
    if nat_eq e.code 0 then record e { code = status } else e

unfoldable pub status_fault : ℕ → ApiError → Fault
status_fault status e =
    if nat_eq status 404
    then not_found e
    else if nat_eq status 409
    then conflict (api e) "resource in conflict state"
    else if nat_eq status 401 || nat_eq status 403
    then unauthorized e
    else if nat_eq status 429 || leb 500 status
    then retryable (api e) "retryable HTTP error"
    else api e

-- The type of `result`: its zero value and its decoder. `no_result` is a nil `result`.
pub record Target (A : Type 0) : Type 0 where
  pub zero_value : A
  pub read : Document → Result A

abbrev pub no_result : Target Unit
no_result = record { zero_value = tt; read = λ body. ok tt }

abbrev pub struct_result : {A : Type 0} → (Json → Decoded A → Decoded A) → A → Target A
struct_result read zero_value = record { zero_value = zero_value; read = decode read zero_value }

abbrev pub wrap_result : {A : Type 0} → String → Result A → Result A
wrap_result msg (ok a) = ok a
wrap_result msg (err e) = err (wrapped msg e)

module _ {A : Type 0} (result : Target A) where
  abbrev pub after_reply : HttpReply → Result A
  after_reply (unreachable e) = err (retryable e "HTTP request failed (network error)")
  after_reply (response status body) =
      if leb 400 status
      then err (status_fault status (api_error_of status body))
      else if nat_eq status 204
      then ok result.zero_value
      else wrap_result "decode response" (result.read body)

  abbrev pub unless_refused : Transport → HttpRequest → Option Fault → Result A
  unless_refused t r (some e) = err (wrapped "create HTTP request" e)
  unless_refused t r none = after_reply (t.send r)

  unfoldable pub do_request : Transport → HttpRequest → Result A
  do_request t r = unless_refused t r (t.refused r)

  unfoldable pub make_request : Transport → String → String → Option Json → Result A
  make_request t method endpoint payload = do_request t (record {
    method = method;
    url = atlas_v1_base <> endpoint;
    payload = payload;
    content_type = content_type_application;
    accept = "application/json";
  })

  unfoldable pub make_v2_request : Transport → String → String → Option Json → String → Result A
  make_v2_request t method endpoint payload accept = do_request t (record {
    method = method;
    url = atlas_v2_base <> endpoint;
    payload = payload;
    content_type = content_type_application;
    accept = (if accept == "" then "application/json" else accept);
  })
