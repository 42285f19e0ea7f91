-- ===== src/Provider/Main/Plan.antt =====
-- An independent description of the start of the provider, as a list of calls.
use custome_provider_mongo_d.Prelude.{
  ◌≡◌, refl, sym, ap, ◌∙◌, Bool, true, false, ◌&&◌, Option, none, some, List, [], ◌∷◌, ◌++◌, String,
}
use custome_provider_mongo_d.Go.Fault.{Fault}
use custome_provider_mongo_d.Go.Exec.{
  Outcome, done, failed, panicked, pure, continue, wrap, attempt, ◌>>=◌, ◌>>◌,
}
use custome_provider_mongo_d.Provider.Platform.{
  Call, Platform, Start, Reconciler, new_reconciler, returned, made, ask, make_reconciler,
}

-- A call whose error ends the process, and one whose error is ignored.
pub data Step (Runtime : Type 0) : Type 0 where
  required : Call Runtime → Step Runtime
  optional : Call Runtime → Step Runtime

abbrev pub is_done : {A : Type 0} → Outcome A → Bool
is_done (done a) = true
is_done (failed e) = false
is_done panicked = false

-- What an action leaves, and whether it returned.
abbrev pub summary : {H : Type 0} → Outcome (Unit {0}) × H → H × Bool
summary r = (r.1, is_done r.0)

abbrev pub accepted : Option Fault → Bool
accepted none = true
accepted (some e) = false

abbrev pub go_on : {H : Type 0} → Bool → H × Bool → H → H × Bool
go_on true rest h = rest
go_on false rest h = (h, false)

module _ {Runtime : Type 0} (p : Platform Runtime) where
  -- The calls after the steps, and whether all the required ones were accepted.
  abbrev pub follow : List (Step Runtime) → List (Call Runtime) → List (Call Runtime) × Bool
  follow [] h = (h, true)
  follow (required c ∷ steps) h = go_on (accepted (p.answer h c)) (follow steps (c ∷ h)) (c ∷ h)
  follow (optional c ∷ steps) h = follow steps (c ∷ h)

  -- Whether each of the calls is accepted after those before it.
  abbrev pub accepts : List (Call Runtime) → List (Call Runtime) → Bool
  accepts [] h = true
  accepts (c ∷ cs) h = accepted (p.answer h c) && accepts cs (c ∷ h)

  -- The action makes the calls of the steps, and returns where the required ones are accepted.
  pub record Follows (steps : List (Step Runtime)) (m : Start Runtime (Unit {0})) : Type 0 where
    pub at : (h : List (Call Runtime)) → summary (m h) ≡ follow steps h

abbrev pub all_required : {Runtime : Type 0} → List (Call Runtime) → List (Step Runtime)
all_required [] = []
all_required (c ∷ cs) = required c ∷ all_required cs

module _ {H : Type 0} where
  go_on_assoc :
      (b : Bool) (r : H × Bool) (h : H) (rest : H → H × Bool)
      → go_on b (go_on r.1 (rest r.0) r.0) h
        ≡ go_on (go_on b r h).1 (rest (go_on b r h).0) (go_on b r h).0
  go_on_assoc true r h rest = refl
  go_on_assoc false r h rest = refl

module _ {Runtime : Type 0} (p : Platform Runtime) where
  pub follow-append :
      (steps rest : List (Step Runtime)) (h : List (Call Runtime))
      → follow p (steps ++ rest) h
        ≡ go_on (follow p steps h).1 (follow p rest (follow p steps h).0) (follow p steps h).0
  follow-append [] rest h = refl
  follow-append (required c ∷ steps) rest h =
      ap (λ r. go_on (accepted (p.answer h c)) r (c ∷ h)) (follow-append steps rest (c ∷ h))
      ∙ go_on_assoc (accepted (p.answer h c)) (follow p steps (c ∷ h)) (c ∷ h) (follow p rest)
  follow-append (optional c ∷ steps) rest h = follow-append steps rest (c ∷ h)

  pub follow-all_required :
      (cs : List (Call Runtime)) (h : List (Call Runtime))
      → (follow p (all_required cs) h).1 ≡ accepts p cs h
  follow-all_required [] h = refl
  follow-all_required (c ∷ cs) h =
      decided (accepted (p.answer h c)) (follow p (all_required cs) (c ∷ h)) (c ∷ h)
      ∙ ap (λ b. accepted (p.answer h c) && b) (follow-all_required cs (c ∷ h))
    where
      decided :
          (b : Bool) (r : List (Call Runtime) × Bool) (h : List (Call Runtime))
          → (go_on b r h).1 ≡ (b && r.1)
      decided true r h = refl
      decided false r h = refl

  pub Follows-ask : (c : Call Runtime) → Follows p (required c ∷ []) (ask p c)
  unfolding ask
  Follows-ask c = record { at = λ h. answered (p.answer h c) (c ∷ h) }
    where
      answered :
          (a : Option Fault) (h : List (Call Runtime))
          → summary (returned a, h) ≡ go_on (accepted a) (h, true) h
      answered none h = refl
      answered (some e) h = refl

  pub Follows-make_reconciler :
      (r : Reconciler) → Follows p (required (new_reconciler r) ∷ []) (make_reconciler p r)
  unfolding make_reconciler
  Follows-make_reconciler r = record {
    at = λ h. answered (p.answer h (new_reconciler r)) (new_reconciler r ∷ h);
  }
    where
      answered :
          (a : Option Fault) (h : List (Call Runtime))
          → summary (made a, h) ≡ go_on (accepted a) (h, true) h
      answered none h = refl
      answered (some e) h = refl

  pub Follows-ignored :
      (c : Call Runtime) → Follows p (optional c ∷ []) (attempt (ask p c) >> pure tt)
  unfolding ask ◌>>=◌
  Follows-ignored c = record { at = λ h. answered (p.answer h c) (c ∷ h) }
    where
      answered :
          (a : Option Fault) (h : List (Call Runtime))
          → summary ((attempt (λ (_ : List (Call Runtime)). (returned a, h)) >> pure tt) h)
            ≡ (h, true)
      answered none h = refl
      answered (some e) h = refl

  pub Follows-pure : Follows p [] (pure tt)
  unfolding ◌>>=◌
  Follows-pure = record { at = λ h. refl }

  pub Follows-wrap :
      (text : String) (steps : List (Step Runtime)) (m : Start Runtime (Unit {0}))
      → Follows p steps m
      → Follows p steps (wrap text m)
  unfolding ◌>>=◌
  Follows-wrap text steps m k = record { at = λ h. wrapped_summary (m h) ∙ k.at h }
    where
      wrapped_summary :
          (r : Outcome (Unit {0}) × List (Call Runtime))
          → summary (wrap text (λ (_ : List (Call Runtime)). r) r.1) ≡ summary r
      wrapped_summary (done a, h) = refl
      wrapped_summary (failed e, h) = refl
      wrapped_summary (panicked, h) = refl

  pub Follows-then :
      (steps rest : List (Step Runtime)) (m n : Start Runtime (Unit {0}))
      → Follows p steps m
      → Follows p rest n
      → Follows p (steps ++ rest) (m >> n)
  unfolding ◌>>=◌
  Follows-then steps rest m n km kn = record {
    at = λ h.
        continued (m h)
        ∙ (ap (λ r. go_on r.1 (follow p rest r.0) r.0) (km.at h)
            ∙ sym (follow-append steps rest h));
  }
    where
      continued :
          (r : Outcome (Unit {0}) × List (Call Runtime))
          → summary (continue r (λ _. n)) ≡ go_on (is_done r.0) (follow p rest r.1) r.1
      continued (done a, h) = kn.at h
      continued (failed e, h) = refl
      continued (panicked, h) = refl
