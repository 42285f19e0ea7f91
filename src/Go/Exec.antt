-- ===== src/Go/Exec.antt =====
-- Fallible computations on a state. A Go function that returns `(A, error)` and changes things is an
-- action of `Exec S A`: what was written before an error stays written. `panic` is a nil dereference
-- or a slice out of range, which aborts the handler.
use custome_provider_mongo_d.Prelude.{String, Bool, true, false, Option, none, some}
use custome_provider_mongo_d.Go.Fault.{Fault, wrapped}

-- What a call of a library or of another component answers: `(A, error)` of Go.
pub data Result {ℓ} (A : Type ℓ) : Type ℓ where
  ok : A → Result A
  err : Fault → Result A

pub data Outcome {ℓ} (A : Type ℓ) : Type ℓ where
  done : A → Outcome A
  failed : Fault → Outcome A
  panicked : Outcome A

abbrev pub Exec {ℓ} : Type ℓ → Type ℓ → Type ℓ
Exec S A = S → Outcome A × S

module _ {ℓ} {A : Type ℓ} where
  abbrev pub from_result : Result A → Outcome A
  from_result (ok a) = done a
  from_result (err e) = failed e

module _ {ℓ} {S A : Type ℓ} where
  unfoldable pub pure : A → Exec S A
  pure a s = (done a, s)

  -- `return err`
  unfoldable pub throw : Fault → Exec S A
  throw e s = (failed e, s)

  unfoldable pub panic : Exec S A
  panic s = (panicked, s)

  unfoldable pub gets : (S → A) → Exec S A
  gets f s = (done (f s), s)

  -- `p.field` and `*p` at a pointer that may be nil.
  unfoldable pub or_panic : Option A → Exec S A
  or_panic none s = (panicked, s)
  or_panic (some a) s = (done a, s)

  abbrev wrap_outcome : String → Outcome A × S → Outcome A × S
  wrap_outcome msg (done a, s) = (done a, s)
  wrap_outcome msg (failed e, s) = (failed (wrapped msg e), s)
  wrap_outcome msg (panicked, s) = (panicked, s)

  -- `if err := m; err != nil { return errors.Wrap(err, msg) }`
  unfoldable pub wrap : String → Exec S A → Exec S A
  wrap msg m s = wrap_outcome msg (m s)

module _ {ℓ} {S A : Type ℓ} where
  abbrev caught : Outcome A × S → Outcome (Result A) × S
  caught (done a, s) = (done (ok a), s)
  caught (failed e, s) = (done (err e), s)
  caught (panicked, s) = (panicked, s)

  -- `a, err := m`, where the code goes on with both.
  unfoldable pub attempt : Exec S A → Exec S (Result A)
  attempt m s = caught (m s)

module _ {ℓ} {S : Type ℓ} where
  unfoldable pub modify : (S → S) → Exec S Unit
  modify f s = (done tt, f s)

  -- `if b { m }`
  unfoldable pub when : Bool → Exec S Unit → Exec S Unit
  unfolding pure
  when true m = m
  when false m = pure tt

module _ {ℓ} {S A B : Type ℓ} where
  abbrev pub continue : Outcome A × S → (A → Exec S B) → Outcome B × S
  continue (done a, s) f = f a s
  continue (failed e, s) f = (failed e, s)
  continue (panicked, s) f = (panicked, s)

  infixl 10 ◌>>=◌ ◌>>◌
  -- Opening this opens the actions above too.
  unfoldable pub ◌>>=◌ : Exec S A → (A → Exec S B) → Exec S B
  unfolding pure throw panic gets or_panic wrap attempt modify when
  ◌>>=◌ m f s = continue (m s) f

  abbrev pub ◌>>◌ : Exec S A → Exec S B → Exec S B
  m >> n = m >>= λ _. n
