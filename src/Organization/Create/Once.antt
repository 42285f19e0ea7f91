-- ===== src/Organization/Create/Once.antt =====
-- When `Create` asks Atlas for a new organization.
use custome_provider_mongo_d.Prelude.{
  ◌≡◌, refl, ◌⊎◌, inl, inr, ◌==◌, eq_iff, Bool-cases, false, String, Option, none, some, List, [],
  ◌∷◌, arith,
}
use custome_provider_mongo_d.Go.Fault.{ApiError, not_found, is_not_found_error}
use custome_provider_mongo_d.Go.Exec.{Result, ok, err}
use custome_provider_mongo_d.Go.Keeps.{Keeps, Keeps-if, Keeps-throw}
use custome_provider_mongo_d.Api.Organization.{Organization}
use custome_provider_mongo_d.Mongo.Service.{Organization as AtlasOrganization}
use custome_provider_mongo_d.Organization.Observe.Calls.{is_observing, persist-Only}
use custome_provider_mongo_d.Organization.Trace.{Only, Only-start, trace_rules}
use custome_provider_mongo_d.Organization.Platform.{
  Platform, External, State, Call, call, atlas, get_organization_by_name,
}
use custome_provider_mongo_d.Organization.Create.{
  create_restore, create_reuse, create_checked, create_unless_found, create,
}

module _ (p : Platform) (c : External) {base : List Call} where
  create_restore-Only : (id : String) → Keeps (Only is_observing base) (create_restore p c id)
  unfolding create_restore
  create_restore-Only id = search (trace_rules, persist-Only)

  create_reuse-Only :
      (org : AtlasOrganization) → Keeps (Only is_observing base) (create_reuse p c org)
  unfolding create_reuse
  create_reuse-Only org = search (trace_rules, persist-Only) depth 9

module _ (p : Platform) (c : External) (s : State) where
  -- What Atlas answers to the search for an organization of the resource's name.
  abbrev pub search_answer : Result (Option AtlasOrganization)
  search_answer = (p.service s.calls c.credentials).get_organization_by_name s.cr.metadata.name

  -- Nothing is known of an organization, and Atlas knows none of the resource's name.
  pub record IsNew : Type 0 where
    pub unnamed : p.get_external_name s.cr.metadata ≡ ""
    pub unrecorded : s.cr.status.at_provider.org_id ≡ ""
    pub unknown : (search_answer ≡ ok none) ⊎ ((e : ApiError) × (search_answer ≡ err (not_found e)))

-- The answers after which nothing is created.
abbrev IsKnown : Result (Option AtlasOrganization) → Type 0
IsKnown (ok none) = ⊥
IsKnown (ok (some org)) = Unit
IsKnown (err e) = is_not_found_error (some e) ≡ false

abbrev IsUnknown : Result (Option AtlasOrganization) → Type 0
IsUnknown r = (r ≡ ok none) ⊎ ((e : ApiError) × (r ≡ err (not_found e)))

answer_cases : (r : Result (Option AtlasOrganization)) → IsUnknown r ⊎ IsKnown r
unfolding is_not_found_error
answer_cases (ok none) = inl (inl refl)
answer_cases (ok (some org)) = inr tt
answer_cases (err (not_found e)) = inl (inr (e, refl))
answer_cases (err e) = inr refl

module _ (p : Platform) (c : External) {base : List Call} where
  create_known-Only :
      (cr : Organization) (r : Result (Option AtlasOrganization))
      → IsKnown r
      → Keeps (Only is_observing base) (create_unless_found p c cr r)
  create_known-Only cr (ok none) k = absurd k
  create_known-Only cr (ok (some org)) k = create_reuse-Only p c org
  create_known-Only cr (err e) k = rw k (Keeps-if _ _ _ (Keeps-throw _) (Keeps-throw _))

module _ (p : Platform) (c : External) (s : State) where
  after_search : State
  after_search = record s {
    calls = atlas c.credentials (get_organization_by_name s.cr.metadata.name) ∷ s.calls;
  }

  create_checked_lem :
      create_checked p c s.cr s ≡ create_unless_found p c s.cr (search_answer p c s) after_search
  unfolding create_checked after_search call
  create_checked_lem = elim (answer_cases (search_answer p c s)) [
    | inl u ↦ ground arith
    | inr k ↦ ground arith
  ]

  after_search-Only : Only is_observing s.calls after_search
  unfolding after_search
  after_search-Only = record {
    fresh = atlas c.credentials (get_organization_by_name s.cr.metadata.name) ∷ [];
    since = refl;
    holds = refl;
  }

  create_checked-Only :
      IsUnknown (search_answer p c s) ⊎ Only is_observing s.calls (create_checked p c s.cr s).1
  create_checked-Only = elim (answer_cases (search_answer p c s)) [
    | inl u ↦ inl u
    | inr k ↦ inr (
        rw create_checked_lem
          ((create_known-Only p c s.cr (search_answer p c s) k).at after_search after_search-Only))
  ]

  -- `Create` asks Atlas for a new organization, stores a key or changes anything in Atlas only where
  -- the resource has no external name, its status has no organization id, and the search for its name
  -- answered that there is none; on every other path, failed searches included, it only reads and
  -- updates the Organization object.
  pub create-IsNew : IsNew p c s ⊎ Only is_observing s.calls (create p c s).1
  unfolding create call
  create-IsNew = elim (Bool-cases (p.get_external_name s.cr.metadata == "")) [
    | inr named ↦ inr (rw named (Only-start s))
    | inl unnamed ↦ elim (Bool-cases (s.cr.status.at_provider.org_id == "")) [
      | inr recorded ↦ inr (
          rw (unnamed, recorded)
            ((create_restore-Only p c s.cr.status.at_provider.org_id).at s (Only-start s)))
      | inl unrecorded ↦ elim create_checked-Only [
        | inl unknown ↦ inl (record {
          unnamed = (eq_iff _ _).0 unnamed;
          unrecorded = (eq_iff _ _).0 unrecorded;
          unknown = unknown;
        })
        | inr only ↦ inr (rw (unnamed, unrecorded) only)
      ]
    ]
  ]
