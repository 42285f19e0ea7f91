-- ===== src/Organization/Reconcile/Rules.antt =====
-- What keeps the fields of a status in agreement, one rule for each way to build a handler.
use custome_provider_mongo_d.Prelude.{
  ℕ, ◌≤◌, String, false, ◌&&◌, ◌≡◌, ◌∙◌, Bool, true, List, arith,
}
use custome_provider_mongo_d.Go.Exec.{Result, ◌>>=◌}
use custome_provider_mongo_d.Go.Keeps.{Keeps, keeps_rules}
use custome_provider_mongo_d.Api.Organization.{Organization, OrganizationObservation}
use custome_provider_mongo_d.Organization.Observe.{set_at_provider}
use custome_provider_mongo_d.Organization.Trace.{all_calls}
use custome_provider_mongo_d.Organization.Reconcile.{IsHonest, counted, creations, consistent}
use custome_provider_mongo_d.Organization.Platform.{
  atlas, create_organization, Platform, Call, State, Go, call, get_cr, set_cr, kube_update_status,
}

-- A call that sends no status, or a consistent one.
abbrev pub sends_consistent : Call → Bool
sends_consistent (kube_update_status o) = consistent o.status.at_provider
sends_consistent _ = true

-- The resource's status is consistent, and so is every one that was sent.
-- With an honest search, at most one organization of each name was created.
pub record Agrees (p : Platform) (s : State) : Type 0 where
  pub sent : all_calls sends_consistent s.calls ≡ true
  pub current : consistent s.cr.status.at_provider ≡ true
  pub single : IsHonest p → (name : String) → creations p name s.calls ≤ 1

-- A call that creates no organization.
abbrev pub is_quiet : Call → Bool
is_quiet (atlas creds (create_organization input)) = false
is_quiet _ = true

counted_le :
    (p : Platform) (name : String) (c : Call) (h : List Call) (n : ℕ)
    → is_quiet c ≡ true
    → counted p name c h n ≤ n
counted_le p name c h n quiet = ground (arith, quiet)

pub Keeps-read :
    {p : Platform} {A : Type 0} (c : Call) (answer : List Call → Result A)
    → (is_quiet c && sends_consistent c) ≡ true
    → Keeps (Agrees p) (call c answer)
unfolding call creations
Keeps-read {p} c answer h = record {
  at = λ s k. record {
    sent = ground (arith, h, k.sent);
    current = k.current;
    single = λ honest name. omega (
      arith,
      k.single honest name,
      counted_le p name c s.calls (creations p name s.calls) (ground (arith, h)),
    );
  };
}

-- A change that leaves alone whether the fields agree.
pub Keeps-change :
    {p : Platform} (f : Organization → Organization)
    → ((o : Organization) → consistent (f o).status.at_provider ≡ consistent o.status.at_provider)
    → Keeps (Agrees p) (set_cr f)
unfolding call
Keeps-change f same = record {
  at = λ s k. record { sent = k.sent; current = same s.cr ∙ k.current; single = k.single };
}

pub Keeps-record :
    {p : Platform} (f : OrganizationObservation → OrganizationObservation)
    → ((o : OrganizationObservation) → consistent o ≡ true → consistent (f o) ≡ true)
    → Keeps (Agrees p) (set_at_provider f)
unfolding call
Keeps-record f h = record {
  at = λ s k. record {
    sent = k.sent;
    current = h s.cr.status.at_provider k.current;
    single = k.single;
  };
}

-- What is done with the resource as it stands.
pub Keeps-current :
    {p : Platform} {A : Type 0} (f : Organization → Go A)
    → ((s : State) → Agrees p s → Agrees p (f s.cr s).1)
    → Keeps (Agrees p) (do cr ← get_cr; f cr)
unfolding call
Keeps-current f h = record { at = h }

pub Keeps-unseen :
    {p : Platform} {A : Type 0} (m : Go A) → ((s : State) → (m s).1 ≡ s) → Keeps (Agrees p) m
Keeps-unseen m same = record { at = λ s k. rw (same s) k }

pub ruleset agree_rules = (keeps_rules, Keeps-read, Keeps-change)
