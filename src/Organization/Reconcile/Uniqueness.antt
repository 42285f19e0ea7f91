-- ===== src/Organization/Reconcile/Uniqueness.antt =====
-- `Create` keeps the fields of a status in agreement, and creates no second organization of a name.
use custome_provider_mongo_d.Prelude.{
  ◌≡◌, refl, true, Option, none, some, ◌∷◌, arith, eq_iff, ◌||◌, Bool-cases, inl, inr,
  if◌then◌else◌,
}
use custome_provider_mongo_d.Go.Exec.{Result, ok, err, throw}
use custome_provider_mongo_d.Go.Fault.{Fault, wrapped, is_retryable_error, is_not_found_error}
use custome_provider_mongo_d.Go.Keeps.{Keeps, Keeps-after}
use custome_provider_mongo_d.Api.Organization.{Organization}
use custome_provider_mongo_d.Mongo.Service.{Organization as AtlasOrganization}
use custome_provider_mongo_d.Organization.Platform.{
  Platform, External, State, call, atlas, atlas_call, create_organization, get_organization_by_name,
}
use custome_provider_mongo_d.Organization.Errors.{is_unauthorized_error}
use custome_provider_mongo_d.Organization.Create.{
  ConnectionDetails, unsafe_message, creation_input, create_new, create_unless_found,
  create_checked, create,
}
use custome_provider_mongo_d.Organization.Reconcile.{KeepsStatus, IsHonest, creations, is_unknown}
use custome_provider_mongo_d.Organization.Reconcile.Rules.{Agrees, agree_rules}
use custome_provider_mongo_d.Organization.Reconcile.Creation.{
  create_restore-Agrees, create_reuse-Agrees, finish_creation-Agrees,
}

module _ (p : Platform) (c : External) (kept : KeepsStatus p) where
  -- The state after the call that creates the organization of `cr`, where none of its name was created.
  requested-Agrees :
      (cr : Organization) (s : State)
      → Agrees p s
      → (IsHonest p → creations p cr.metadata.name s.calls ≡ 0)
      → Agrees p (record s {
        calls = atlas c.credentials (create_organization (creation_input cr)) ∷ s.calls;
      })
  unfolding creations creation_input
  requested-Agrees cr s k new = record {
    sent = ground (arith, k.sent);
    current = k.current;
    single = λ honest name.
        ground (arith, k.single honest name, new honest, eq_iff cr.metadata.name name);
  }

  create_new-Agrees :
      (cr : Organization) (s : State)
      → Agrees p s
      → (IsHonest p → creations p cr.metadata.name s.calls ≡ 0)
      → Agrees p (create_new p c cr s).1
  unfolding create_new call
  create_new-Agrees cr s k new =
      Keeps-after
        (atlas_call p c.credentials (create_organization (creation_input cr))
          (λ t. t.create_organization (creation_input cr)))
        _ s (requested-Agrees cr s k new)
        (λ created. finish_creation-Agrees p c kept created.0 created.1)

  refused-Agrees :
      (e : Fault)
      → Keeps (Agrees p) (
          if is_unauthorized_error (some e) || is_retryable_error (some e)
          then throw {A = ConnectionDetails} (wrapped (unsafe_message p c) e)
          else throw (wrapped "checking existing organization" e))
  refused-Agrees e = search agree_rules

  create_unless_found-Agrees :
      (cr : Organization) (r : Result (Option AtlasOrganization)) (s : State)
      → Agrees p s
      → (is_unknown r ≡ true → IsHonest p → creations p cr.metadata.name s.calls ≡ 0)
      → Agrees p (create_unless_found p c cr r s).1
  create_unless_found-Agrees cr (ok none) s k new = create_new-Agrees cr s k (new refl)
  create_unless_found-Agrees cr (ok (some org)) s k new = (create_reuse-Agrees p c org).at s k
  create_unless_found-Agrees cr (err e) s k new = elim (Bool-cases (is_not_found_error (some e))) [
    | inl missing ↦ rw missing (create_new-Agrees cr s k (new missing))
    | inr other ↦ rw other ((refused-Agrees e).at s k)
  ]

  -- The state after the search.
  abbrev searched : Organization → State → State
  searched cr s = record s {
    calls = atlas c.credentials (get_organization_by_name cr.metadata.name) ∷ s.calls;
  }

  create_checked_lem :
      (cr : Organization) (s : State) (r : Result (Option AtlasOrganization))
      → (p.service s.calls c.credentials).get_organization_by_name cr.metadata.name ≡ r
      → create_checked p c cr s ≡ create_unless_found p c cr r (searched cr s)
  unfolding create_checked call
  create_checked_lem cr s (ok found) e = rw e refl
  create_checked_lem cr s (err f) e = rw e refl

  searched-Agrees : (cr : Organization) (s : State) → Agrees p s → Agrees p (searched cr s)
  unfolding creations
  searched-Agrees cr s k = record {
    sent = ground (arith, k.sent);
    current = k.current;
    single = k.single;
  }

  checked-Agrees :
      (cr : Organization) (s : State) (r : Result (Option AtlasOrganization))
      → (p.service s.calls c.credentials).get_organization_by_name cr.metadata.name ≡ r
      → Agrees p s
      → Agrees p (create_checked p c cr s).1
  unfolding creations
  checked-Agrees cr s r e k = rw (create_checked_lem cr s r e) (
      create_unless_found-Agrees cr r (searched cr s) (searched-Agrees cr s k) (λ unknown honest.
        honest.none_created s.calls c.credentials cr.metadata.name (rw e unknown)))

  create_checked-Agrees : (cr : Organization) → Keeps (Agrees p) (create_checked p c cr)
  create_checked-Agrees cr = record { at = λ s k. checked-Agrees cr s _ refl k }

  pub create-Agrees : Keeps (Agrees p) (create p c)
  unfolding create
  create-Agrees = search (agree_rules, create_restore-Agrees, create_checked-Agrees) depth 9
