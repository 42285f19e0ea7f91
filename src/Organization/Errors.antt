-- ===== src/Organization/Errors.antt =====
-- The classification of errors by their texts in organization.go. `none` is a nil error.
pub mod Transient
use custome_provider_mongo_d.Prelude.{
  Bool, true, false, ◌||◌, ◌&&◌, Option, none, some, if◌then◌else◌,
}
use custome_provider_mongo_d.Prelude.Text.{lower_contains}
use custome_provider_mongo_d.Go.Fault.{Fault, error_text}

unfoldable pub is_unauthorized_error : Option Fault → Bool
is_unauthorized_error none = false
is_unauthorized_error (some e) =
    let t = error_text e in
    lower_contains t "401"
    || lower_contains t "unauthorized"
    || lower_contains t "forbidden"
    || lower_contains t "403"

unfoldable pub is_not_found_text : Option Fault → Bool
is_not_found_text none = false
is_not_found_text (some e) =
    let t = error_text e in lower_contains t "404" || lower_contains t "not found"

unfoldable pub is_atlas_transient_error : Option Fault → Bool
is_atlas_transient_error none = false
is_atlas_transient_error (some e) =
    let t = error_text e in
    if lower_contains t "internal server error" || lower_contains t "500"
    then true
    else if lower_contains t "context canceled" || lower_contains t "context cancelled"
    then true
    else if lower_contains t "network error"
        || lower_contains t "request canceled"
        || lower_contains t "retryable"
    then true
    else if lower_contains t "api error 0"
    then true
    else false

unfoldable pub is_atlas_transient_or_opaque_delete_err : Option Fault → Bool
is_atlas_transient_or_opaque_delete_err none = false
is_atlas_transient_or_opaque_delete_err (some e) =
    let t = error_text e in
    if lower_contains t "api error 0"
    then true
    else if lower_contains t "internal server error" || lower_contains t "500"
    then true
    else if lower_contains t "context canceled" || lower_contains t "context cancelled"
    then true
    else if lower_contains t "network error"
        || lower_contains t "request canceled"
        || lower_contains t "retryable"
    then true
    else if lower_contains t "ip address"
        && lower_contains t "is not allowed to access this resource"
    then true
    else false
