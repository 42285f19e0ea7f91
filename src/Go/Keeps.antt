-- ===== src/Go/Keeps.antt =====
-- Invariants of actions, one rule for each way to build an action.
use custome_provider_mongo_d.Prelude.{
  ◌≡◌, ◌≢◌, refl, String, Bool, true, false, Option, none, some, if◌then◌else◌,
}
use custome_provider_mongo_d.Go.Fault.{Fault}
use custome_provider_mongo_d.Go.Exec.{
  Outcome, done, failed, panicked, Exec, pure, throw, panic, gets, or_panic, wrap, attempt,
  continue, modify, when, ◌>>=◌,
}

-- `m` keeps `P`, whether it returns, fails or panics.
pub record Keeps {ℓ} {Shared Val : Type ℓ} (Holds : Shared → Type ℓ) (action : Exec Shared Val)
    : Type ℓ where
  pub at : (start : Shared) → Holds start → Holds (action start).1

module _ {ℓ} {S A : Type ℓ} {P : S → Type ℓ} where
  pub Keeps-throw : (e : Fault) → Keeps P (throw {A = A} e)
  unfolding ◌>>=◌
  Keeps-throw e = record { at = λ s h. h }

  pub Keeps-panic : Keeps P (panic {A = A})
  unfolding ◌>>=◌
  Keeps-panic = record { at = λ s h. h }

  pub Keeps-gets : (f : S → A) → Keeps P (gets f)
  unfolding ◌>>=◌
  Keeps-gets f = record { at = λ s h. h }

  pub Keeps-or_panic : (o : Option A) → Keeps P (or_panic o)
  unfolding ◌>>=◌
  Keeps-or_panic none = record { at = λ s h. h }
  Keeps-or_panic (some a) = record { at = λ s h. h }

  pub Keeps-wrap : (msg : String) (m : Exec S A) → Keeps P m → Keeps P (wrap msg m)
  unfolding ◌>>=◌
  Keeps-wrap msg m k = record { at = λ s h. keep (m s) (k.at s h) }
    where
      keep : (r : Outcome A × S) → P r.1 → P (wrap msg (λ _. r) r.1).1
      keep (done a, s) h = h
      keep (failed e, s) h = h
      keep (panicked, s) h = h

  pub Keeps-attempt : (m : Exec S A) → Keeps P m → Keeps P (attempt m)
  unfolding ◌>>=◌
  Keeps-attempt m k = record { at = λ s h. keep (m s) (k.at s h) }
    where
      keep : (r : Outcome A × S) → P r.1 → P (attempt (λ (_ : S). r) r.1).1
      keep (done a, s) h = h
      keep (failed e, s) h = h
      keep (panicked, s) h = h

  pub Keeps-pure : (a : A) → Keeps P (pure a)
  unfolding ◌>>=◌
  Keeps-pure a = record { at = λ s h. h }

  pub Keeps-if : (b : Bool) (m n : Exec S A) → Keeps P m → Keeps P n → Keeps P (if b then m else n)
  Keeps-if true m n km kn = km
  Keeps-if false m n km kn = kn

module _ {ℓ} {S : Type ℓ} {P : S → Type ℓ} where
  pub Keeps-modify : (f : S → S) → ((s : S) → P s → P (f s)) → Keeps P (modify f)
  unfolding ◌>>=◌
  Keeps-modify f h = record { at = h }

  pub Keeps-when : (b : Bool) (m : Exec S Unit) → Keeps P m → Keeps P (when b m)
  unfolding ◌>>=◌
  Keeps-when true m k = k
  Keeps-when false m k = record { at = λ s h. h }

module _ {ℓ} {S A B : Type ℓ} {P : S → Type ℓ} where
  continue-Holds :
      (rest : A → Exec S B)
      → ((a : A) → Keeps P (rest a))
      → (r : Outcome A × S) → P r.1
      → P (continue r rest).1
  continue-Holds rest k (done a, s) h = (k a).at s h
  continue-Holds rest k (failed e, s) h = h
  continue-Holds rest k (panicked, s) h = h

  pub Keeps-bind :
      (first : Exec S A) (rest : A → Exec S B)
      → Keeps P first
      → ((a : A) → Keeps P (rest a))
      → Keeps P (first >>= rest)
  unfolding ◌>>=◌
  Keeps-bind first rest k ks = record { at = λ s h. continue-Holds rest ks (first s) (k.at s h) }

  -- What follows an action that leads to `P`.
  pub Keeps-after :
      (first : Exec S A) (rest : A → Exec S B) (s : S)
      → P (first s).1
      → ((a : A) → Keeps P (rest a))
      → P ((first >>= rest) s).1
  unfolding ◌>>=◌
  Keeps-after first rest s h ks = continue-Holds rest ks (first s) h

pub ruleset keeps_rules = (
  Keeps-pure, Keeps-throw, Keeps-panic, Keeps-gets, Keeps-or_panic, Keeps-wrap, Keeps-attempt,
  Keeps-if, Keeps-when, Keeps-modify, Keeps-bind,
)

-- `m` returns or panics, and has no error to report.
pub record NeverFails {ℓ} {S A : Type ℓ} (m : Exec S A) : Type ℓ where
  pub at : (s : S) (e : Fault) → (m s).0 ≢ failed e

-- Where `m` fails it has kept `P`.
pub record KeepsOnFail {ℓ} {S A : Type ℓ} (P : S → Type ℓ) (m : Exec S A) : Type ℓ where
  pub at : (s : S) (e : Fault) → (m s).0 ≡ failed e → P s → P (m s).1

module _ {ℓ} {S A : Type ℓ} where
  pub NeverFails-pure : (a : A) → NeverFails {S = S} (pure a)
  unfolding ◌>>=◌
  NeverFails-pure a = record { at = λ s e h. cc }

  pub NeverFails-gets : (f : S → A) → NeverFails (gets f)
  unfolding ◌>>=◌
  NeverFails-gets f = record { at = λ s e h. cc }

  pub NeverFails-attempt : (m : Exec S A) → NeverFails (attempt m)
  unfolding ◌>>=◌
  NeverFails-attempt m = record { at = λ s e h. never (m s) e h }
    where
      never : (r : Outcome A × S) (e : Fault) → (attempt (λ (_ : S). r) r.1).0 ≢ failed e
      never (done a, s) e h = cc
      never (failed f, s) e h = cc
      never (panicked, s) e h = cc

  pub NeverFails-if :
      (b : Bool) (m n : Exec S A) → NeverFails m → NeverFails n → NeverFails (if b then m else n)
  NeverFails-if true m n km kn = km
  NeverFails-if false m n km kn = kn

module _ {ℓ} {S : Type ℓ} where
  pub NeverFails-modify : (f : S → S) → NeverFails (modify f)
  unfolding ◌>>=◌
  NeverFails-modify f = record { at = λ s e h. cc }

  pub NeverFails-when : (b : Bool) (m : Exec S Unit) → NeverFails m → NeverFails (when b m)
  unfolding ◌>>=◌
  NeverFails-when true m k = k
  NeverFails-when false m k = record { at = λ s e h. cc }

module _ {ℓ} {S A B : Type ℓ} where
  pub NeverFails-bind :
      (m : Exec S A) (f : A → Exec S B)
      → NeverFails m
      → ((a : A) → NeverFails (f a))
      → NeverFails (m >>= f)
  unfolding ◌>>=◌
  NeverFails-bind m f km kf = record { at = λ s e. never (m s) (km.at s) e }
    where
      never :
          (r : Outcome A × S)
          → ((e : Fault) → r.0 ≢ failed e)
          → (e : Fault) → (continue r f).0 ≢ failed e
      never (done a, s) h e = (kf a).at s e
      never (failed f, s) h e = absurd (h f refl)
      never (panicked, s) h e = λ q. cc

module _ {ℓ} {S A : Type ℓ} {P : S → Type ℓ} where
  pub Keeps-KeepsOnFail : (m : Exec S A) → Keeps P m → KeepsOnFail P m
  Keeps-KeepsOnFail m k = record { at = λ s e h. k.at s }

  pub NeverFails-KeepsOnFail : (m : Exec S A) → NeverFails m → KeepsOnFail P m
  NeverFails-KeepsOnFail m k = record { at = λ s e h. absurd (k.at s e h) }

  pub KeepsOnFail-if :
      (b : Bool) (m n : Exec S A)
      → KeepsOnFail P m
      → KeepsOnFail P n
      → KeepsOnFail P (if b then m else n)
  KeepsOnFail-if true m n km kn = km
  KeepsOnFail-if false m n km kn = kn

module _ {ℓ} {S A B : Type ℓ} {P : S → Type ℓ} where
  pub KeepsOnFail-bind :
      (m : Exec S A) (f : A → Exec S B)
      → Keeps P m
      → ((a : A) → KeepsOnFail P (f a))
      → KeepsOnFail P (m >>= f)
  unfolding ◌>>=◌
  KeepsOnFail-bind m f km kf = record { at = λ s e h k. keep (m s) e h (km.at s k) }
    where
      keep :
          (r : Outcome A × S) (e : Fault) → (continue r f).0 ≡ failed e → P r.1 → P (continue r f).1
      keep (done a, s) e h k = (kf a).at s e h k
      keep (failed g, s) e h k = k
      keep (panicked, s) e h k = k

pub ruleset never_rules = (
  NeverFails-pure, NeverFails-gets, NeverFails-attempt, NeverFails-if, NeverFails-modify,
  NeverFails-when, NeverFails-bind,
)
