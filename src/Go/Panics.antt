-- ===== src/Go/Panics.antt =====
-- Actions that do not panic: always, or from the states of which something holds.
use custome_provider_mongo_d.Prelude.{◌≡◌, ◌≢◌, refl, String, Bool, true, false, if◌then◌else◌}
use custome_provider_mongo_d.Go.Fault.{Fault}
use custome_provider_mongo_d.Go.Exec.{
  Outcome, done, failed, panicked, Exec, pure, throw, gets, wrap, attempt, continue, modify, when,
  ◌>>=◌,
}
use custome_provider_mongo_d.Go.Keeps.{Keeps}

pub record NeverPanics {ℓ} {S A : Type ℓ} (m : Exec S A) : Type ℓ where
  pub at : (s : S) → (m s).0 ≢ panicked

-- `m` does not panic where `P` holds.
pub record PanicsNot {ℓ} {Shared Val : Type ℓ} (Holds : Shared → Type ℓ) (action : Exec Shared Val)
    : Type ℓ where
  pub at : (start : Shared) → Holds start → (action start).0 ≢ panicked

module _ {ℓ} {S A : Type ℓ} where
  pub NeverPanics-pure : (a : A) → NeverPanics {S = S} (pure a)
  unfolding ◌>>=◌
  NeverPanics-pure a = record { at = λ s. cc }

  pub NeverPanics-throw : (e : Fault) → NeverPanics {S = S} {A = A} (throw e)
  unfolding ◌>>=◌
  NeverPanics-throw e = record { at = λ s. cc }

  pub NeverPanics-gets : (f : S → A) → NeverPanics (gets f)
  unfolding ◌>>=◌
  NeverPanics-gets f = record { at = λ s. cc }

  pub NeverPanics-wrap : (msg : String) (m : Exec S A) → NeverPanics m → NeverPanics (wrap msg m)
  unfolding ◌>>=◌
  NeverPanics-wrap msg m k = record { at = λ s. never (m s) (k.at s) }
    where
      never : (r : Outcome A × S) → r.0 ≢ panicked → (wrap msg (λ (_ : S). r) r.1).0 ≢ panicked
      never (done a, s) h = cc
      never (failed e, s) h = cc
      never (panicked, s) h = absurd (h refl)

  pub NeverPanics-attempt : (m : Exec S A) → NeverPanics m → NeverPanics (attempt m)
  unfolding ◌>>=◌
  NeverPanics-attempt m k = record { at = λ s. never (m s) (k.at s) }
    where
      never : (r : Outcome A × S) → r.0 ≢ panicked → (attempt (λ (_ : S). r) r.1).0 ≢ panicked
      never (done a, s) h = cc
      never (failed e, s) h = cc
      never (panicked, s) h = absurd (h refl)

  pub NeverPanics-if :
      (b : Bool) (m n : Exec S A) → NeverPanics m → NeverPanics n → NeverPanics (if b then m else n)
  NeverPanics-if true m n km kn = km
  NeverPanics-if false m n km kn = kn

module _ {ℓ} {S : Type ℓ} where
  pub NeverPanics-modify : (f : S → S) → NeverPanics (modify f)
  unfolding ◌>>=◌
  NeverPanics-modify f = record { at = λ s. cc }

  pub NeverPanics-when : (b : Bool) (m : Exec S Unit) → NeverPanics m → NeverPanics (when b m)
  unfolding ◌>>=◌
  NeverPanics-when true m k = k
  NeverPanics-when false m k = record { at = λ s. cc }

module _ {ℓ} {S A B : Type ℓ} where
  continue_never :
      (f : A → Exec S B) (r : Outcome A × S)
      → r.0 ≢ panicked
      → ((a : A) → r.0 ≡ done a → (f a r.1).0 ≢ panicked)
      → (continue r f).0 ≢ panicked
  continue_never f (done a, s) h k = k a refl
  continue_never f (failed e, s) h k = cc
  continue_never f (panicked, s) h k = absurd (h refl)

  pub NeverPanics-bind :
      (m : Exec S A) (f : A → Exec S B)
      → NeverPanics m
      → ((a : A) → NeverPanics (f a))
      → NeverPanics (m >>= f)
  unfolding ◌>>=◌
  NeverPanics-bind m f km kf = record {
    at = λ s. continue_never f (m s) (km.at s) (λ a e. (kf a).at (m s).1);
  }

  module _ {P : S → Type ℓ} where
    pub PanicsNot-bind :
        (m : Exec S A) (f : A → Exec S B)
        → NeverPanics m
        → Keeps P m
        → ((a : A) → PanicsNot P (f a))
        → PanicsNot P (m >>= f)
    unfolding ◌>>=◌
    PanicsNot-bind m f km keeps kf = record {
      at = λ s h. continue_never f (m s) (km.at s) (λ a e. (kf a).at (m s).1 (keeps.at s h));
    }

    pub PanicsNot-first :
        (m : Exec S A) (f : A → Exec S B)
        → PanicsNot P m
        → ((a : A) → NeverPanics (f a))
        → PanicsNot P (m >>= f)
    unfolding ◌>>=◌
    PanicsNot-first m f km kf = record {
      at = λ s h. continue_never f (m s) (km.at s h) (λ a e. (kf a).at (m s).1);
    }

module _ {ℓ} {S A : Type ℓ} {P : S → Type ℓ} where
  pub NeverPanics-PanicsNot : (m : Exec S A) → NeverPanics m → PanicsNot P m
  NeverPanics-PanicsNot m k = record { at = λ s h. k.at s }

  pub PanicsNot-if :
      (b : Bool) (m n : Exec S A) → PanicsNot P m → PanicsNot P n → PanicsNot P (if b then m else n)
  PanicsNot-if true m n km kn = km
  PanicsNot-if false m n km kn = kn

pub ruleset panic_rules = (
  NeverPanics-pure, NeverPanics-throw, NeverPanics-gets, NeverPanics-wrap, NeverPanics-attempt,
  NeverPanics-if, NeverPanics-modify, NeverPanics-when, NeverPanics-bind,
)
