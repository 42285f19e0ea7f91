-- ===== src/Organization/Errors/Transient.antt =====
-- Which errors count as a transient or opaque answer to a deletion.
use custome_provider_mongo_d.Prelude.{◌≡◌, refl, String, ◌<>◌, true, some, arith}
use custome_provider_mongo_d.Prelude.Text.{
  lower_contains, contains_codes, lower_contains-append_left, lower_contains-append_right,
}
use custome_provider_mongo_d.Go.Fault.{Fault, plain, wrapped, retryable, error_text}
use custome_provider_mongo_d.Organization.Errors.{is_atlas_transient_or_opaque_delete_err}

-- An error with a given word in its text, and the words that make an error opaque.
transient_of_retryable :
    (e : Fault)
    → lower_contains (error_text e) "retryable" ≡ true
    → is_atlas_transient_or_opaque_delete_err (some e) ≡ true
unfolding is_atlas_transient_or_opaque_delete_err
transient_of_retryable e h = ground arith

pub transient_of_500 :
    (e : Fault)
    → lower_contains (error_text e) "500" ≡ true
    → is_atlas_transient_or_opaque_delete_err (some e) ≡ true
unfolding is_atlas_transient_or_opaque_delete_err
transient_of_500 e h = ground arith

pub retryable-word :
    (e : Fault) (why : String) → lower_contains (error_text (retryable e why)) "retryable" ≡ true
unfolding error_text
retryable-word e why =
    lower_contains-append_right "retryable error: " (why <> (" - " <> error_text e)) "retryable"
      (unfold lower_contains in unfold contains_codes in refl)

-- A `RetryableError` under any wrapping: a network failure, a 429 or any 5xx.
pub transient-wrapped-retryable :
    (msg : String) (e : Fault) (why : String)
    → is_atlas_transient_or_opaque_delete_err (some (wrapped msg (retryable e why))) ≡ true
unfolding error_text
transient-wrapped-retryable msg e why = transient_of_retryable (wrapped msg (retryable e why)) (
    lower_contains-append_left msg (": " <> error_text (retryable e why)) "retryable" (
      lower_contains-append_left ": " (error_text (retryable e why)) "retryable"
        (retryable-word e why)))

-- `errors.Errorf("organization %s still exists", id)`, which `VerifyOrganizationDeletion` returns.
abbrev pub still_exists : String → Fault
still_exists id = plain ("organization " <> (id <> " still exists"))

pub transient-still_exists :
    (id : String)
    → lower_contains id "500" ≡ true
    → is_atlas_transient_or_opaque_delete_err (some (still_exists id)) ≡ true
unfolding error_text
transient-still_exists id h = transient_of_500 (still_exists id) (
    lower_contains-append_left "organization " (id <> " still exists") "500"
      (lower_contains-append_right id " still exists" "500" h))
