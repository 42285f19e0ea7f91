-- ===== src/Organization/Status/Saved.antt =====
-- What a saved external name means.
use custome_provider_mongo_d.Prelude.{
  ◌≡◌, ◌≢◌, refl, ◌⊎◌, inl, inr, String, List, ◌∷◌, arith, Bool-cases,
}
use custome_provider_mongo_d.Go.Fault.{Fault, api_is_conflict}
use custome_provider_mongo_d.Go.Exec.{Result, ok, err, done}
use custome_provider_mongo_d.Api.Organization.{Organization}
use custome_provider_mongo_d.Organization.Platform.{
  Platform, IsLawful, State, Call, call, kube_update_organization, kube_get_organization,
}
use custome_provider_mongo_d.Organization.Status.{
  PersistMessages, with_external_name, update_again, after_update, persist_external_name,
}

result_cases : {A : Type 0} (r : Result A) → ((a : A) × (r ≡ ok a)) ⊎ ((e : Fault) × (r ≡ err e))
result_cases (ok a) = inl (a, refl)
result_cases (err e) = inr (e, refl)

-- The last call was an update of an object with the external name, which the server answered with
-- `latest`.
pub record IsSaved (p : Platform) (id : String) (latest : Organization) (s : State) : Type 0 where
  pub sent : Organization
  pub earlier : List Call
  pub last_call : s.calls ≡ kube_update_organization sent ∷ earlier
  pub accepted : (p.kube earlier).update_organization sent ≡ ok latest
  pub named : p.get_external_name sent.metadata ≡ id

module _ (p : Platform) (lawful : IsLawful p) (m : PersistMessages) (name id : String)
    (latest : Organization) where
  update_again-IsSaved :
      (s : State)
      → (update_again p m name id s).0 ≡ done latest
      → IsSaved p id latest (update_again p m name id s).1
  unfolding with_external_name call
  update_again-IsSaved s h = elim (result_cases ((p.kube s.calls).get_organization name)) [
    | inr (e, answer) ↦ absurd (ground arith)
    | inl (fresh, answer) ↦ record {
      sent = with_external_name p fresh id;
      earlier = kube_get_organization name ∷ s.calls;
      last_call = ground arith;
      accepted = ground arith;
      named = lawful.get-set_external_name fresh.metadata id;
    }
  ]

  after_update-IsSaved :
      (s : State) (sent : Organization) (earlier : List Call) (r : Result Organization)
      → s.calls ≡ kube_update_organization sent ∷ earlier
      → (p.kube earlier).update_organization sent ≡ r
      → p.get_external_name sent.metadata ≡ id
      → (after_update p m name id r s).0 ≡ done latest
      → IsSaved p id latest (after_update p m name id r s).1
  unfolding call
  after_update-IsSaved s sent earlier (ok updated) last answer named h = record {
    sent = sent;
    earlier = earlier;
    last_call = last;
    accepted = ground arith;
    named = named;
  }
  after_update-IsSaved s sent earlier (err e) last answer named h =
      elim (Bool-cases (api_is_conflict e)) [
        | inl conflict ↦ rw conflict (update_again-IsSaved s (rw conflict at h))
        | inr other ↦ absurd (ground arith)
      ]

module _ (p : Platform) (m : PersistMessages) (id : String) (s : State) (found : Organization) where
  sent_first : Organization
  sent_first = with_external_name p found id

  calls_before : List Call
  calls_before = kube_get_organization s.cr.metadata.name ∷ s.calls

  persist_found :
      (p.kube s.calls).get_organization s.cr.metadata.name ≡ ok found
      → persist_external_name p m id s
        ≡ after_update p m s.cr.metadata.name id
            ((p.kube calls_before).update_organization sent_first)
            (record s { calls = kube_update_organization sent_first ∷ calls_before })
  unfolding persist_external_name sent_first calls_before call
  persist_found answer =
      elim (result_cases (
        (p.kube (kube_get_organization s.cr.metadata.name ∷ s.calls)).update_organization
          (with_external_name p found id))) [
            | inl (updated, e) ↦ ground arith
            | inr (e, f) ↦ ground arith
          ]

persist_missing :
    (p : Platform) (m : PersistMessages) (id : String) (s : State) (e : Fault)
    (latest : Organization)
    → (p.kube s.calls).get_organization s.cr.metadata.name ≡ err e
    → (persist_external_name p m id s).0 ≢ done latest
unfolding persist_external_name call
persist_missing p m id s e latest answer h = ground arith

module _ (p : Platform) (lawful : IsLawful p) where
  -- Where the steps that save an external name succeed, the last call was an update of an object that
  -- has that name, the server accepted it, and the result is what the server returned: a conflict is
  -- never reported as success.
  pub persist_external_name-IsSaved :
      (m : PersistMessages) (id : String) (s : State) (latest : Organization)
      → (persist_external_name p m id s).0 ≡ done latest
      → IsSaved p id latest (persist_external_name p m id s).1
  unfolding sent_first with_external_name
  persist_external_name-IsSaved m id s latest h =
      elim (result_cases ((p.kube s.calls).get_organization s.cr.metadata.name)) [
        | inr (e, answer) ↦ absurd (persist_missing p m id s e latest answer h)
        | inl (found, answer) ↦
            let step = persist_found p m id s found answer in
            rw step (
              after_update-IsSaved p lawful m s.cr.metadata.name id latest _
                (sent_first p m id s found) (calls_before p m id s found) _ refl refl
                (lawful.get-set_external_name found.metadata id) (rw step at h))
      ]
