-- ===== src/Go/Runs.antt =====
-- The steps of an action that returned.
use custome_provider_mongo_d.Go.Fault.{Fault}
use custome_provider_mongo_d.Prelude.{◌≡◌, refl, String, arith}
use custome_provider_mongo_d.Go.Exec.{
  Outcome, done, failed, panicked, Exec, continue, wrap, ◌>>=◌, Result, ok, err, attempt, gets,
}
use custome_provider_mongo_d.Go.Keeps.{Keeps}

module _ {S A B : Type 0} where
  continue_done :
      (f : A → Exec S B) (r : Outcome A × S) (b : B)
      → (continue r f).0 ≡ done b
      → (a : A) × (r.0 ≡ done a) × ((f a r.1).0 ≡ done b)
  continue_done f (done a, s) b h = (a, refl, h)
  continue_done f (failed e, s) b h = absurd (ground (arith, h))
  continue_done f (panicked, s) b h = absurd (ground (arith, h))

  -- Where a sequence returns, both its parts did.
  pub bind_done :
      (m : Exec S A) (f : A → Exec S B) (s : S) (b : B)
      → ((m >>= f) s).0 ≡ done b
      → (a : A) × ((m s).0 ≡ done a) × ((f a (m s).1).0 ≡ done b)
  unfolding ◌>>=◌
  bind_done m f s b h = continue_done f (m s) b h

-- From `P` the action leads to `Q` where it returns.
pub record Leads {ℓ} {Shared Val : Type ℓ} (Before : Shared → Type ℓ) (action : Exec Shared Val)
    (After : Shared → Type ℓ) : Type ℓ where
  pub at :
      (start : Shared) (answer : Val)
      → Before start
      → (action start).0 ≡ done answer
      → After (action start).1

module _ {S A B : Type 0} {Q R : S → Type 0} where
  leads_on :
      (f : A → Exec S B) (r : Outcome A × S) (b : B)
      → ((a : A) → r.0 ≡ done a → Q r.1)
      → ((a : A) → Leads Q (f a) R)
      → (continue r f).0 ≡ done b
      → R (continue r f).1
  leads_on f (done a, s) b q k h = (k a).at s b (q a refl) h
  leads_on f (failed e, s) b q k h = absurd (ground (arith, h))
  leads_on f (panicked, s) b q k h = absurd (ground (arith, h))

module _ {S A B : Type 0} {P Q R : S → Type 0} where
  pub Leads-bind :
      (m : Exec S A) (f : A → Exec S B)
      → Leads P m Q
      → ((a : A) → Leads Q (f a) R)
      → Leads P (m >>= f) R
  unfolding ◌>>=◌
  Leads-bind m f km kf = record { at = λ s b h d. leads_on f (m s) b (λ a e. km.at s a h e) kf d }

module _ {S A : Type 0} {P : S → Type 0} where
  pub Keeps-Leads : (m : Exec S A) → Keeps P m → Leads P m P
  Keeps-Leads m k = record { at = λ s a h d. k.at s h }

module _ {S A : Type 0} {P Q : S → Type 0} where
  pub Leads-wrap : (msg : String) (m : Exec S A) → Leads P m Q → Leads P (wrap msg m) Q
  unfolding ◌>>=◌
  Leads-wrap msg m k = record { at = λ s a h d. lead (m s) a (λ b. k.at s b h) d }
    where
      lead :
          (r : Outcome A × S) (a : A)
          → ((b : A) → r.0 ≡ done b → Q r.1)
          → (wrap msg (λ (_ : S). r) r.1).0 ≡ done a
          → Q (wrap msg (λ (_ : S). r) r.1).1
      lead (done b, s) a k d = k b refl
      lead (failed e, s) a k d = absurd (ground (arith, d))
      lead (panicked, s) a k d = absurd (ground (arith, d))

module _ {S A B : Type 0} (Q : S → Type 0) where
  -- What follows the attempt, whether it returned or failed.
  pub attempt_leads :
      (m : Exec S A) (f : Result A → Exec S B) (s : S)
      → ((a : A)
          → (m s).0 ≡ done a
          → (b : B) → (f (ok a) (m s).1).0 ≡ done b
          → Q (f (ok a) (m s).1).1)
      → ((e : Fault)
          → (m s).0 ≡ failed e
          → (b : B) → (f (err e) (m s).1).0 ≡ done b
          → Q (f (err e) (m s).1).1)
      → (b : B) → ((attempt m >>= f) s).0 ≡ done b
      → Q ((attempt m >>= f) s).1
  unfolding ◌>>=◌
  attempt_leads m f s = leads (m s)
    where
      leads :
          (r : Outcome A × S)
          → ((a : A) → r.0 ≡ done a → (b : B) → (f (ok a) r.1).0 ≡ done b → Q (f (ok a) r.1).1)
          → ((e : Fault)
              → r.0 ≡ failed e
              → (b : B) → (f (err e) r.1).0 ≡ done b
              → Q (f (err e) r.1).1)
          → (b : B) → ((attempt (λ (_ : S). r) >>= f) r.1).0 ≡ done b
          → Q ((attempt (λ (_ : S). r) >>= f) r.1).1
      leads (done a, t) k l b d = k a refl b d
      leads (failed e, t) k l b d = l e refl b d
      leads (panicked, t) k l b d = absurd (ground (arith, d))

module _ {S A B : Type 0} {P Q : S → Type 0} where
  pub Leads-gets :
      (g : S → A) (f : A → Exec S B)
      → ((s : S) (b : B) → P s → (f (g s) s).0 ≡ done b → Q (f (g s) s).1)
      → Leads P (gets g >>= f) Q
  unfolding ◌>>=◌
  Leads-gets g f leads = record { at = leads }

module _ {S A B : Type 0} (Q R : S → Type 0) where
  -- What follows an action whose value is known.
  pub leads_after :
      (m : Exec S A) (f : A → Exec S B) (s : S) (a : A)
      → (m s).0 ≡ done a
      → Q (m s).1
      → Leads Q (f a) R
      → (b : B) → ((m >>= f) s).0 ≡ done b
      → R ((m >>= f) s).1
  unfolding ◌>>=◌
  leads_after m f s a = after (m s)
    where
      after :
          (r : Outcome A × S)
          → r.0 ≡ done a
          → Q r.1
          → Leads Q (f a) R
          → (b : B) → (continue r f).0 ≡ done b
          → R (continue r f).1
      after (done v, t) same q k b h =
          let given : v ≡ a = cc same in rw given (k.at t b q (rw given at h))
      after (failed e, t) same q k b h = absurd (ground (arith, h))
      after (panicked, t) same q k b h = absurd (ground (arith, h))
