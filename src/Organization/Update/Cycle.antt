-- ===== src/Organization/Update/Cycle.antt =====
-- `Observe`, `Update` and `Observe` after one another.
use custome_provider_mongo_d.Organization.Secrets.{fetch_org_credentials}
use custome_provider_mongo_d.Mongo.Service.{Credentials}
use custome_provider_mongo_d.Go.Exec.{done}
use custome_provider_mongo_d.Organization.Update.Unchanged.{named_view}
use custome_provider_mongo_d.Organization.Update.{update, update_org}
use custome_provider_mongo_d.Api.Organization.{Organization}
use custome_provider_mongo_d.Organization.Observe.Storage.{
  record_secret-storage_type, IsSettled, observe-settled,
}
use custome_provider_mongo_d.Organization.Names.{k8s_secret_name, final_secret_name}
use custome_provider_mongo_d.Prelude.{
  ◌≡◌, ◌⊎◌, true, arith, eq_refl, ap, ◌∙◌, ◌≢◌, none, refl, sym, eq_iff,
}
use custome_provider_mongo_d.Organization.Platform.{Platform, External, State, call}
use custome_provider_mongo_d.Organization.Observe.{
  record_secret, secret_name_matches, desired_secret_name, enforcement_matches, is_up_to_date,
  observe, observe_settled, desired_storage_type,
}
use custome_provider_mongo_d.Organization.Update.Converges.{
  addresses_match, Cooperates, IsReady, update_org-IsReady,
}

desired_secret_name_of_spec :
    (a b : Organization)
    → a.spec ≡ b.spec
    → a.metadata ≡ b.metadata
    → desired_secret_name a ≡ desired_secret_name b
unfolding desired_secret_name k8s_secret_name final_secret_name
desired_secret_name_of_spec a b spec metadata = ground (arith, spec, metadata)

module _ (p : Platform) (c : External) where
  secret_name-record_secret_as :
      (s : State)
      → ((record_secret p c s).1.cr.status.at_provider.secret_name
          ≡ s.cr.status.at_provider.secret_name)
        ⊎ ((record_secret p c s).1.cr.status.at_provider.secret_name ≡ desired_secret_name s.cr)
  unfolding record_secret desired_secret_name k8s_secret_name final_secret_name call
  secret_name-record_secret_as s = ground arith

  secret_name-record_secret :
      (s : State)
      → secret_name_matches s.cr ≡ true
      → secret_name_matches (record_secret p c s).1.cr ≡ true
  unfolding secret_name_matches
  secret_name-record_secret s h =
      let (returned, stored, spec, metadata) = record_secret-storage_type p c s in
      ground (
        arith,
        secret_name-record_secret_as s,
        desired_secret_name_of_spec (record_secret p c s).1.cr s.cr spec metadata,
        eq_refl (desired_secret_name s.cr),
      )

  up_to_date-record_secret :
      (s : State)
      → secret_name_matches s.cr ≡ true
      → enforcement_matches s.cr ≡ true
      → addresses_match s.cr ≡ true
      → is_up_to_date (record_secret p c s).1.cr ≡ true
  unfolding is_up_to_date record_secret enforcement_matches call
  up_to_date-record_secret s named enforced addresses =
      ground (arith, secret_name-record_secret s named)

  secret_name_of_view :
      (a b : Organization)
      → named_view a ≡ named_view b
      → secret_name_matches a ≡ secret_name_matches b
  unfolding secret_name_matches
  secret_name_of_view a b same =
      ground
        (arith, same, desired_secret_name_of_spec a b (ap (λ v. v.0) same) (ap (λ v. v.1) same))

  observe_ready :
      (s : State)
      → IsSettled p s.cr
      → secret_name_matches s.cr ≡ true
      → enforcement_matches s.cr ≡ true
      → addresses_match s.cr ≡ true
      → (observe p c s).0 ≡ done (record { resource_exists = true; resource_up_to_date = true })
  unfolding observe_settled call
  observe_ready s settled named enforced addresses = rw (observe-settled p c s settled) (
      ground (
        arith,
        record_secret-storage_type p c s,
        up_to_date-record_secret s named enforced addresses,
      ))

  -- What the first `Observe` leaves.
  pub record Settles (s t : State) : Type 0 where
    pub spec : t.cr.spec ≡ s.cr.spec
    pub metadata : t.cr.metadata ≡ s.cr.metadata
    pub stored :
        t.cr.status.at_provider.secret_storage_type
        ≡ desired_storage_type s.cr.spec.for_provider.secret_storage_config
    pub enforcement :
        t.cr.status.at_provider.api_access_list_required
        ≡ s.cr.status.at_provider.api_access_list_required

  pub observe-Settles : (s : State) → IsSettled p s.cr → Settles s (observe p c s).1
  unfolding observe_settled record_secret call
  observe-Settles s settled = rw (observe-settled p c s settled) (record {
    spec = ground arith;
    metadata = ground arith;
    stored = ground arith;
    enforcement = ground arith;
  })

  pub update_named :
      (t : State)
      → p.get_external_name t.cr.metadata ≢ ""
      → update p c t ≡ update_org p c (p.get_external_name t.cr.metadata) t
  unfolding update call
  update_named t named = ground (arith, named, eq_iff (p.get_external_name t.cr.metadata) "")

  module _ (s : State) (creds : Credentials)
      (cooperates : Cooperates p (p.get_external_name s.cr.metadata) creds)
      (settled : IsSettled p s.cr)
      (known : (s.cr.spec.for_provider.network_access_config.api_access_list_required ≡ true)
        ⊎ (s.cr.status.at_provider.api_access_list_required ≢ none)) where
    same-IsSettled : (t : State) → t.cr.metadata ≡ s.cr.metadata → IsSettled p t.cr
    same-IsSettled t same = record { named = rw same settled.named; live = rw same settled.live }

    abbrev observed : State
    observed = (observe p c s).1

    named_steps : update p c observed ≡ update_org p c (p.get_external_name s.cr.metadata) observed
    named_steps =
        let first = observe-Settles s settled in
        update_named observed (rw first.metadata settled.named)
        ∙ ap (λ m. update_org p c (p.get_external_name m) observed) first.metadata

    updated-IsReady :
        (fetch_org_credentials p c observed.cr observed).0 ≡ done creds
        → (update p c observed).0 ≡ done tt
        → IsReady p c
            (p.get_external_name s.cr.metadata)
            creds
            cooperates
            observed.cr
            (update p c observed).1
    updated-IsReady fetched returned =
        let first = observe-Settles s settled in
        rw named_steps (
          update_org-IsReady p c (p.get_external_name s.cr.metadata) creds cooperates observed.cr
            (rw first.spec first.stored) (rw (first.spec, first.enforcement) known) observed
            (record { same = refl }) fetched (sym (ap (λ r. r.0) named_steps) ∙ returned))

    -- One `Update` brings a resource to what is desired. Where the resource has its external name and is not
    -- being deleted, its enforcement is wanted or known, `Observe` leaves a secret name that is empty or the
    -- desired one, the stored credentials are read, Atlas finds the key of these credentials in the resource's
    -- organization and accepts changes of its enforcement, the server keeps the object that it is sent, and the
    -- `Update` that follows returns, the next `Observe` reports that the resource exists and is up to date.
    pub observe-update :
        secret_name_matches observed.cr ≡ true
        → (fetch_org_credentials p c observed.cr observed).0 ≡ done creds
        → (update p c observed).0 ≡ done tt
        → (observe p c (update p c observed).1).0
          ≡ done (record { resource_exists = true; resource_up_to_date = true })
    observe-update named fetched returned =
        let first = observe-Settles s settled in
        let ready = updated-IsReady fetched returned in
        observe_ready (update p c observed).1
          (same-IsSettled (update p c observed).1 (ap (λ v. v.1) ready.named.view ∙ first.metadata))
          (secret_name_of_view _ _ ready.named.view ∙ named) ready.named.enforcement ready.addresses
