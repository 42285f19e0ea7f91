-- ===== src/Organization/Reconcile/Invariant.antt =====
-- The states that the handlers of the Organization controller lead to in any order: the fields of the
-- status, and the creations of organizations.
use custome_provider_mongo_d.Prelude.{String, ◌≤◌, ◌≡◌, refl, inl, inr, true, arith, List}
use custome_provider_mongo_d.Api.Organization.{Organization}
use custome_provider_mongo_d.Organization.Platform.{Platform, State, Call}
use custome_provider_mongo_d.Organization.Trace.{all_calls}
use custome_provider_mongo_d.Organization.Reconcile.Rules.{Agrees, sends_consistent}
use custome_provider_mongo_d.Organization.Reconcile.Observing.{connect-Agrees, observe-Agrees}
use custome_provider_mongo_d.Organization.Reconcile.Uniqueness.{create-Agrees}
use custome_provider_mongo_d.Organization.Reconcile.Updating.{update-Agrees}
use custome_provider_mongo_d.Organization.Reconcile.Deletion.{delete-Agrees}
use custome_provider_mongo_d.Organization.Reconcile.{
  IsHonest, creations, KeepsStatus, Reachable, WasSent, consistent, started, connected, observed,
  created, updated, deleted, edited, read_again, now, before,
}

WasSent-consistent :
    (o : Organization) (h : List Call)
    → WasSent o h
    → all_calls sends_consistent h ≡ true
    → consistent o.status.at_provider ≡ true
WasSent-consistent o h (now g) k = ground (arith, k)
WasSent-consistent o h (before c g w) k = WasSent-consistent o g w (ground (arith, k))

module _ (p : Platform) (kept : KeepsStatus p) where
  Reachable-Agrees : (s : State) → Reachable p s → Agrees p s
  unfolding creations
  Reachable-Agrees s (started t none_made new) = record {
    sent = rw none_made refl;
    current = rw new refl;
    single = λ honest name. rw none_made (ground arith);
  }
  Reachable-Agrees s (connected t r) = (connect-Agrees p).at t (Reachable-Agrees t r)
  Reachable-Agrees s (observed c t r) = (observe-Agrees p c).at t (Reachable-Agrees t r)
  Reachable-Agrees s (created c t r) = (create-Agrees p c kept).at t (Reachable-Agrees t r)
  Reachable-Agrees s (updated c t r) = (update-Agrees p c kept).at t (Reachable-Agrees t r)
  Reachable-Agrees s (deleted c t r) = (delete-Agrees p c kept).at t (Reachable-Agrees t r)
  Reachable-Agrees s (edited t o r same) =
      let k = Reachable-Agrees t r in
      record { sent = k.sent; current = rw same k.current; single = k.single }
  Reachable-Agrees s (read_again t o sent r (inl new)) = record {
    sent = (Reachable-Agrees t r).sent;
    current = rw new refl;
    single = (Reachable-Agrees t r).single;
  }
  Reachable-Agrees s (read_again t o sent r (inr (w, same))) =
      let k = Reachable-Agrees t r in
      record {
        sent = k.sent;
        current = rw same (WasSent-consistent sent t.calls w k.sent);
        single = k.single;
      }

  -- Where the server keeps the status of an accepted update, in every state that the handlers lead to in
  -- any order, whatever the calls answered and wherever a handler stopped, and whatever status of an
  -- earlier update the resource was read with, the fields of its status agree.
  pub Reachable-consistent : (s : State) → Reachable p s → consistent s.cr.status.at_provider ≡ true
  Reachable-consistent s r = (Reachable-Agrees s r).current

  -- Where the server keeps the status of an accepted update, and a search by name that finds nothing tells
  -- that no creation of an organization of that name was accepted since the last accepted deletion, then in
  -- every state that the handlers lead to in any order, whatever the other calls answered and wherever a
  -- handler stopped, at most one creation of an organization of each name was accepted since then.
  pub creations_le :
      (s : State) → Reachable p s → IsHonest p → (name : String) → creations p name s.calls ≤ 1
  creations_le s r honest name = (Reachable-Agrees s r).single honest name
