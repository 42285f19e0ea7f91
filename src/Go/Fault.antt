-- ===== src/Go/Fault.antt =====
-- Go error values, and their texts.
-- The typed errors are those of internal/clients/mongodb/client.go. `plain` and `wrapped` are what
-- `errors.New`, `errors.Errorf`, `fmt.Errorf` and `errors.Wrap` build; `kube` is an error of the
-- Kubernetes API with its status reason; `secret_exists` is the `ResourceExistsException` of AWS;
-- `foreign` is any other error of a library.
use Prim.Native.Nat.{◌/◌, ◌%◌}
use custome_provider_mongo_d.Prelude.{
  ℕ, zero, suc, ◌<◌, arith, Bool-cases, inl, inr, String, ◌<>◌, Bool, true, false, Option, some,
  ltb, nat_eq, if◌then◌else◌, ◌≡◌, refl,
}

-- `Error` of the Atlas API.
pub record ApiError : Type 0 where
  pub code : ℕ
  pub detail : String
  pub reason : String

pub data StatusReason : Type 0 where
  is_not_found is_conflict other_reason : StatusReason

pub data Fault : Type 0 where
  plain : String → Fault
  wrapped : String → Fault → Fault
  not_found : ApiError → Fault
  unauthorized : ApiError → Fault
  retryable : Fault → String → Fault
  conflict : Fault → String → Fault
  api : ApiError → Fault
  kube : StatusReason → String → Fault
  secret_exists : String → Fault
  foreign : String → Fault

unfoldable pub digit : ℕ → String
digit d =
    if nat_eq d 0
    then "0"
    else if nat_eq d 1
    then "1"
    else if nat_eq d 2
    then "2"
    else if nat_eq d 3
    then "3"
    else if nat_eq d 4
    then "4"
    else if nat_eq d 5
    then "5"
    else if nat_eq d 6
    then "6"
    else if nat_eq d 7
    then "7"
    else if nat_eq d 8
    then "8"
    else "9"

-- The decimal digits, on fuel: `suc n` rounds are more than the digits of `n`.
decimal_loop : ℕ → ℕ → String → String
unfolding digit
decimal_loop zero n acc = acc
decimal_loop (suc fuel) n acc =
    let more = decimal_loop fuel (n / 10) (digit (n % 10) <> acc) in
    if ltb n 10 then digit n <> acc else more

quotient_lt : (n : ℕ) → ltb n 10 ≡ false → n / 10 < n
quotient_lt n h = ground (arith, h)

-- Any two amounts of fuel above the number print the same.
decimal_loop_lem :
    (f g n : ℕ) (acc : String) → n < f → n < g → decimal_loop f n acc ≡ decimal_loop g n acc
unfolding decimal_loop
decimal_loop_lem zero g n acc hf hg = absurd (omega (arith, hf))
decimal_loop_lem (suc f) zero n acc hf hg = absurd (omega (arith, hg))
decimal_loop_lem (suc f) (suc g) n acc hf hg = elim (Bool-cases (ltb n 10)) [
  | inl small ↦ rw small refl
  | inr large ↦ rw large (
      decimal_loop_lem f g (n / 10) (digit (n % 10) <> acc) (omega (arith, quotient_lt n large, hf))
        (omega (arith, quotient_lt n large, hg)))
]

-- `%d`
unfoldable pub decimal : ℕ → String
unfolding decimal_loop
decimal n = decimal_loop (suc n) n ""

-- `Error.Error`
unfoldable pub api_error_text : ApiError → String
unfolding decimal
api_error_text e =
    "MongoDB Atlas API error " <> (decimal e.code <> (": " <> (e.reason <> (" - " <> e.detail))))

-- `err.Error()`
unfoldable pub error_text : Fault → String
unfolding api_error_text
error_text (plain msg) = msg
error_text (wrapped msg e) = msg <> (": " <> error_text e)
error_text (not_found e) = api_error_text e
error_text (unauthorized e) = api_error_text e
error_text (retryable e msg) = "retryable error: " <> (msg <> (" - " <> error_text e))
error_text (conflict e msg) =
    "conflict error (resource in transition): " <> (msg <> (" - " <> error_text e))
error_text (api e) = api_error_text e
error_text (kube r msg) = msg
error_text (secret_exists msg) = msg
error_text (foreign msg) = msg

-- `IsNotFoundError`: a type assertion, which does not look through a wrapper. `none` is nil.
unfoldable pub is_not_found_error : Option Fault → Bool
is_not_found_error (some (not_found e)) = true
is_not_found_error _ = false

-- `IsUnauthorizedError`
unfoldable pub is_unauthorized_fault : Option Fault → Bool
is_unauthorized_fault (some (unauthorized e)) = true
is_unauthorized_fault _ = false

-- `IsRetryableError`
unfoldable pub is_retryable_error : Option Fault → Bool
is_retryable_error (some (retryable e msg)) = true
is_retryable_error _ = false

-- `IsConflictError`
unfoldable pub is_conflict_error : Option Fault → Bool
is_conflict_error (some (conflict e msg)) = true
is_conflict_error _ = false

-- `apierrors.IsNotFound` and `apierrors.IsConflict`, at an error that the Kubernetes client returned.
unfoldable pub api_is_not_found : Fault → Bool
api_is_not_found (kube is_not_found msg) = true
api_is_not_found _ = false

unfoldable pub api_is_conflict : Fault → Bool
api_is_conflict (kube is_conflict msg) = true
api_is_conflict _ = false

abbrev sample : ApiError
sample = record { code = 500; detail = "d"; reason = "r" }

api_error_text_run : api_error_text sample ≡ "MongoDB Atlas API error 500: r - d"
unfolding api_error_text
api_error_text_run = refl
