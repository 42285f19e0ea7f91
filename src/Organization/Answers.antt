-- ===== src/Organization/Answers.antt =====
-- Actions that go on with the answer of a call.
use custome_provider_mongo_d.Prelude.{◌≡◌, refl, sym, ap, ◌∙◌, List, ◌∷◌}
use custome_provider_mongo_d.Go.Exec.{Result, ok, err, done, continue, attempt, from_result, ◌>>=◌}
use custome_provider_mongo_d.Go.Runs.{Leads}
use custome_provider_mongo_d.Organization.Platform.{State, Go, Call, call}

attempt_lem :
    {A : Type 0} (r : Result A) (s : State)
    → attempt (λ (t : State). (from_result r, t)) s ≡ (done r, s)
unfolding ◌>>=◌
attempt_lem (ok a) s = refl
attempt_lem (err e) s = refl

-- An action that goes on with the answer of a call, whatever it is.
pub bind_answer :
    {A B : Type 0} (c : Call) (answer : List Call → Result A) (f : Result A → Go B) (s : State)
    → (attempt (call c answer) >>= f) s ≡ f (answer s.calls) (record s { calls = c ∷ s.calls })
unfolding call
bind_answer c answer f s =
    ap (λ r. continue r f) (attempt_lem (answer s.calls) (record s { calls = c ∷ s.calls }))

pub Leads-answer :
    {A B : Type 0} {P Q : State → Type 0} (c : Call) (answer : List Call → Result A)
    (f : Result A → Go B)
    → ((s : State) (b : B)
        → P s
        → (f (answer s.calls) (record s { calls = c ∷ s.calls })).0 ≡ done b
        → Q (f (answer s.calls) (record s { calls = c ∷ s.calls })).1)
    → Leads P (attempt (call c answer) >>= f) Q
Leads-answer c answer f leads = record {
  at = λ s b h d.
      rw (bind_answer c answer f s)
        (leads s b h (sym (ap (λ r. r.0) (bind_answer c answer f s)) ∙ d));
}
