-- ===== src/Organization/Connect/Region.antt =====
-- The AWS client that `Connect` of the Organization controller gives to `Create`.
use custome_provider_mongo_d.Prelude.{
  ◌≡◌, refl, sym, ap, ◌∙◌, ◌==◌, true, String, Option, none, some, List, ◌∷◌, arith,
}
use custome_provider_mongo_d.Go.Fault.{Fault, plain}
use custome_provider_mongo_d.Go.Exec.{wrap, Result, ok, done, failed, ◌>>=◌}
use custome_provider_mongo_d.Go.Json.{Document}
use custome_provider_mongo_d.Go.Keeps.{Keeps, Keeps-bind, keeps_rules}
use custome_provider_mongo_d.Go.Runs.{bind_done}
use custome_provider_mongo_d.Api.Organization.{
  Organization, OrganizationSpec, SecretStorageConfig, secret_storage_type_aws,
}
use custome_provider_mongo_d.Api.ProviderConfig.{
  ProviderConfig, SecretKeySelector, credentials_source_secret,
}
use custome_provider_mongo_d.Mongo.Service.{Organization as AtlasOrganization, ApiKeyPair}
use custome_provider_mongo_d.Organization.Platform.{
  kube_secret, Secret, Platform, External, State, Go, Call, call, track_config_usage,
  kube_get_provider_config, set_cr,
}
use custome_provider_mongo_d.Organization.Observe.Calls.{is_observing, persist-Only}
use custome_provider_mongo_d.Organization.Trace.{Only, Only-start, trace_rules}
use custome_provider_mongo_d.Organization.Secrets.{lookup}
use custome_provider_mongo_d.Organization.Status.{
  PersistMessages, with_external_name, persist_external_name,
}
use custome_provider_mongo_d.Organization.Create.{
  record_created, store_api_key, store_by, finish_creation, ConnectionDetails,
}
use custome_provider_mongo_d.Organization.Connect.{connect, from_key, from_kubernetes}

-- The API key is to be stored in AWS, by configuration or by default.
unfoldable pub NeedsAws : Option SecretStorageConfig → Type 0
NeedsAws none = Unit
NeedsAws (some config) = config.storage_type ≡ secret_storage_type_aws

record HasSpec (spec : OrganizationSpec) (s : State) : Type 0 where
  same : s.cr.spec ≡ spec

module _ {spec : OrganizationSpec} where
  HasSpec-call :
      {A : Type 0} (c : Call) (answer : List Call → Result A) → Keeps (HasSpec spec) (call c answer)
  unfolding call
  HasSpec-call c answer = record { at = λ s h. record { same = h.same } }

  HasSpec-set_cr :
      (f : Organization → Organization)
      → ((o : Organization) → (f o).spec ≡ o.spec)
      → Keeps (HasSpec spec) (set_cr f)
  unfolding call
  HasSpec-set_cr f same = record { at = λ s h. record { same = same s.cr ∙ h.same } }

module _ {P Q : State → Type 0} {A : Type 0} where
  Keeps-both : (m : Go A) → Keeps P m → Keeps Q m → Keeps (λ s. P s × Q s) m
  Keeps-both m k l = record { at = λ s (h, g). (k.at s h, l.at s g) }

module _ (p : Platform) where
  persist_cr :
      (m : PersistMessages) (id : String) (s : State) → (persist_external_name p m id s).1.cr ≡ s.cr
  unfolding persist_external_name call
  persist_cr m id s = ground arith

  persist-HasSpec :
      {spec : OrganizationSpec} (m : PersistMessages) (id : String)
      → Keeps (HasSpec spec) (persist_external_name p m id)
  persist-HasSpec m id = record {
    at = λ s h. record { same = ap (λ (o : Organization). o.spec) (persist_cr m id s) ∙ h.same };
  }

  record_created-HasSpec :
      {spec : OrganizationSpec} (c : External) (org : AtlasOrganization) (key : ApiKeyPair)
      → Keeps (HasSpec spec) (record_created p c org key)
  unfolding record_created with_external_name
  record_created-HasSpec c org key = search (keeps_rules, persist-HasSpec, HasSpec-set_cr) depth 9

  record_created-Only :
      {base : List Call} (c : External) (org : AtlasOrganization) (key : ApiKeyPair)
      → Keeps (Only is_observing base) (record_created p c org key)
  unfolding record_created
  record_created-Only c org key = search (trace_rules, persist-Only) depth 9

  store_by_unavailable :
      (c : External) (cr : Organization) (config : Option SecretStorageConfig)
      (org : AtlasOrganization) (key : ApiKeyPair) (s : State)
      → c.aws_region ≡ none
      → NeedsAws config
      → (e : Fault) × (store_by p c cr config org key s ≡ (failed e, s))
  unfolding ◌>>=◌ NeedsAws
  store_by_unavailable c cr none org key s missing needs =
      (plain "AWS client not available and no secretStorageConfig specified", rw missing refl)
  store_by_unavailable c cr (some config) org key s missing needs =
      (plain "AWS client not available for AWS secret storage", rw needs (rw missing refl))

  module _ (c : External) (org : AtlasOrganization) (key : ApiKeyPair) (s : State)
      (missing : c.aws_region ≡ none)
      (needs : NeedsAws s.cr.spec.for_provider.secret_storage_config) where
    abbrev Stuck : State → Type 0
    Stuck t = HasSpec s.cr.spec t × Only is_observing s.calls t

    -- Once the organization is recorded, the rest ends at the storing.
    rest_stops :
        (rest : String → Go ConnectionDetails) (t : State)
        → HasSpec s.cr.spec t
        → (e : Fault) × ((store_api_key p c org key >>= rest) t ≡ (failed e, t))
    unfolding store_api_key ◌>>=◌
    rest_stops rest t same =
        let (e, stops) =
          store_by_unavailable c t.cr t.cr.spec.for_provider.secret_storage_config org key t missing
            (rw same.same needs) in
        (e, rw stops refl)

    stuck : Keeps Stuck (finish_creation p c org key)
    unfolding finish_creation
    stuck =
        Keeps-bind _ _
          (Keeps-both _ (record_created-HasSpec c org key) (record_created-Only c org key))
          (λ u. record { at = λ t h. rw (rest_stops _ t h.0).1 h })

    never_done : (d : ConnectionDetails) → (finish_creation p c org key s).0 ≡ done d → ⊥
    unfolding finish_creation
    never_done d h =
        let (u, recorded, rest) = bind_done (record_created p c org key) _ s d h in
        let spec = (record_created-HasSpec c org key).at s (record { same = refl }) in
        absurd (ground (arith, sym (ap (λ r. r.0) (rest_stops _ _ spec).1) ∙ rest))

  from_key_region :
      (r : SecretKeySelector) (d : Option Document) (s : State) (c : External)
      → (from_key r d s).0 ≡ done c
      → c.aws_region ≡ none
  unfolding ◌>>=◌
  from_key_region r none s c h = absurd (ground (arith, h))
  from_key_region r (some d) s c h = ground (arith, h)

  from_kubernetes_region :
      (ref : Option SecretKeySelector) (s : State) (c : External)
      → (from_kubernetes p ref s).0 ≡ done c
      → c.aws_region ≡ none
  unfolding ◌>>=◌
  from_kubernetes_region none s c h = absurd (ground (arith, h))
  from_kubernetes_region (some r) s c h =
      let (secret, got, rest) =
        bind_done
          (wrap "cannot get ProviderConfig Kubernetes Secret" (kube_secret p r.namespace r.name))
          (λ (secret : Secret). from_key r (lookup r.key secret.secret_data)) s c h in
      from_key_region r (lookup r.key secret.secret_data) _ c rest

  module _ (s : State) (name : String) (pc : ProviderConfig) (c : External)
      (tracked : p.track s.calls ≡ none)
      (referred : s.cr.spec.provider_config_reference ≡ some name)
      (answered : p.provider_config (track_config_usage ∷ s.calls) name ≡ ok pc)
      (from_a_secret : (pc.spec.credentials.source == credentials_source_secret) ≡ true)
      (connected : (connect p s).0 ≡ done c) where
    connect_kubernetes :
        connect p s
        ≡ from_kubernetes p pc.spec.credentials.secret_ref
            (record s { calls = kube_get_provider_config name ∷ (track_config_usage ∷ s.calls) })
    unfolding connect call
    connect_kubernetes = ground (arith, tracked, referred, answered, from_a_secret)

    connect_region : c.aws_region ≡ none
    connect_region =
        from_kubernetes_region _ _ c (sym (ap (λ r. r.0) connect_kubernetes) ∙ connected)

    -- With credentials from a Kubernetes secret, and an API key that is to be stored in AWS, `Create` never
    -- returns once Atlas created the organization, and from then on it only reads, and saves the object:
    -- the key of the new organization is stored nowhere.
    pub connect-finish_creation :
        (t : State) (org : AtlasOrganization) (key : ApiKeyPair)
        → NeedsAws t.cr.spec.for_provider.secret_storage_config
        → ((d : ConnectionDetails) → (finish_creation p c org key t).0 ≡ done d → ⊥)
          × Only is_observing t.calls (finish_creation p c org key t).1
    connect-finish_creation t org key needs = (
      never_done c org key t connect_region needs,
      ((stuck c org key t connect_region needs).at t (record { same = refl }, Only-start t)).1,
    )
