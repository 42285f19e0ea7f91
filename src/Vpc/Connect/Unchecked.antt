-- ===== src/Vpc/Connect/Unchecked.antt =====
-- Where `Connect` of the VPC endpoint controller returns a nil client without an error.
use custome_provider_mongo_d.Prelude.{
  ◌≡◌, refl, sym, String, true, false, none, some, List, ◌∷◌, ◌==◌, arith, Option, ◌↔◌, ◌⊎◌, inl,
  inr, Bool-cases, ap, ◌∙◌,
}
use custome_provider_mongo_d.Go.Exec.{Result, wrap, done, ok, err, ◌>>=◌}
use custome_provider_mongo_d.Go.Runs.{bind_done}
use custome_provider_mongo_d.Go.Json.{Document}
use custome_provider_mongo_d.Api.ProviderConfig.{
  ProviderConfig, SecretKeySelector, credentials_source_secret,
}
use custome_provider_mongo_d.Vpc.Platform.{
  Platform, State, call, SecretValue, track_usage, get_provider_config, get_secret,
}
use custome_provider_mongo_d.Vpc.Client.{AwsCredentials}
use custome_provider_mongo_d.Vpc.Connect.{
  value_of, present, key_or_default, namespace_or, new_vpc_endpoint_client, validated, logged,
  parsed, from_document, from_secret, from_config, connect,
}

-- The namespace of the secret of a reference, and the key in it.
abbrev pub namespace_in : ProviderConfig → SecretKeySelector → String
namespace_in pc r = namespace_or r.namespace pc.namespace

module _ (p : Platform) (quote : String → String) where
  validated_not_none : (c : AwsCredentials) (s : State) → (validated p quote c s).0 ≡ done none → ⊥
  unfolding new_vpc_endpoint_client call
  validated_not_none c s h = ground (arith, h)

  logged_not_none : (c : AwsCredentials) (s : State) → (logged p quote c s).0 ≡ done none → ⊥
  unfolding logged call
  logged_not_none c s h = ground (arith, h, validated_not_none c s)

  parsed_not_none : (r : Result AwsCredentials) (s : State) → (parsed p quote r s).0 ≡ done none → ⊥
  unfolding ◌>>=◌
  parsed_not_none (ok c) s h = logged_not_none c s h
  parsed_not_none (err e) s h = ground (arith, h)

  -- The secret of the reference `r` has no bytes under its key.
  LacksKey : ProviderConfig → SecretKeySelector → State → Type 0
  LacksKey pc r s =
      (m : List (String × SecretValue)) × (p.secret s.calls (namespace_in pc r) r.name ≡ ok m)
      × (present (value_of (key_or_default r.key) m) ≡ none)

  -- The source is another than a Kubernetes secret, or the secret has no bytes under the key.
  pub HasNoKey : ProviderConfig → State → Type 0
  unfolding LacksKey
  HasNoKey pc s =
      ((pc.spec.credentials.source == credentials_source_secret) ≡ false)
      ⊎ (((pc.spec.credentials.source == credentials_source_secret) ≡ true)
          × ((r : SecretKeySelector) × (pc.spec.credentials.secret_ref ≡ some r) × LacksKey pc r s))

  from_document_missing :
      (key name : String) (d : Option Document) (s : State)
      → (from_document p quote key name d s).0 ≡ done none
      → d ≡ none
  from_document_missing key name none s h = refl
  from_document_missing key name (some d) s h = absurd (parsed_not_none _ s h)

  missing_document :
      (key name : String) (s : State) → (from_document p quote key name none s).0 ≡ done none
  unfolding ◌>>=◌
  missing_document key name s = refl

  pub secret_answer :
      (ns name : String) (s : State) (m : List (String × SecretValue))
      → (wrap "cannot get AWS credentials secret"
          (call (get_secret ns name) (λ h. p.secret h ns name))
          s).0
        ≡ done m
      → p.secret s.calls ns name ≡ ok m
  unfolding call
  secret_answer ns name s m h = ground (arith, h)

  pub answer_secret :
      (ns name : String) (s : State) (m : List (String × SecretValue))
      → p.secret s.calls ns name ≡ ok m
      → wrap "cannot get AWS credentials secret"
          (call (get_secret ns name) (λ h. p.secret h ns name))
          s
        ≡ (done m, record s { calls = get_secret ns name ∷ s.calls })
  unfolding call
  answer_secret ns name s m h = rw h refl

  from_secret-LacksKey :
      (pc : ProviderConfig) (r : SecretKeySelector) (s : State)
      → (from_secret p quote pc (some r) s).0 ≡ done none
      → LacksKey pc r s
  unfolding LacksKey
  from_secret-LacksKey pc r s h =
      let (m, answered, rest) = bind_done _ _ s none h in
      (
        m,
        secret_answer _ _ s m answered,
        from_document_missing (key_or_default r.key) r.name _ _ rest,
      )

  LacksKey-from_secret :
      (pc : ProviderConfig) (r : SecretKeySelector) (s : State)
      → LacksKey pc r s
      → (from_secret p quote pc (some r) s).0 ≡ done none
  unfolding LacksKey ◌>>=◌
  LacksKey-from_secret pc r s (m, answered, missing) =
      rw (answer_secret _ _ s m answered) (rw missing refl)

  reference-LacksKey :
      (pc : ProviderConfig) (ref : Option SecretKeySelector) (s : State)
      → (from_secret p quote pc ref s).0 ≡ done none
      → (r : SecretKeySelector) × (ref ≡ some r) × LacksKey pc r s
  unfolding ◌>>=◌
  reference-LacksKey pc none s h = absurd (ground (arith, h))
  reference-LacksKey pc (some r) s h = (r, refl, from_secret-LacksKey pc r s h)

  pub secret_source :
      (pc : ProviderConfig) (s : State)
      → (pc.spec.credentials.source == credentials_source_secret) ≡ true
      → from_config p quote pc s ≡ from_secret p quote pc pc.spec.credentials.secret_ref s
  secret_source pc s right = rw right refl

  pub other_source :
      (pc : ProviderConfig) (s : State)
      → (pc.spec.credentials.source == credentials_source_secret) ≡ false
      → (from_config p quote pc s).0 ≡ done none
  unfolding ◌>>=◌
  other_source pc s other = rw other refl

  from_config-HasNoKey :
      (pc : ProviderConfig) (s : State) → (from_config p quote pc s).0 ≡ done none → HasNoKey pc s
  unfolding HasNoKey
  from_config-HasNoKey pc s h =
      elim (Bool-cases (pc.spec.credentials.source == credentials_source_secret)) [
        | inl right ↦
            inr (
              right,
              reference-LacksKey pc _ s (sym (ap (λ r. r.0) (secret_source pc s right)) ∙ h),
            )
        | inr other ↦ inl other
      ]

  HasNoKey-from_config :
      (pc : ProviderConfig) (s : State) → HasNoKey pc s → (from_config p quote pc s).0 ≡ done none
  unfolding HasNoKey
  HasNoKey-from_config pc s (inl other) = other_source pc s other
  HasNoKey-from_config pc s (inr (right, (r, e, lacks))) =
      rw (secret_source pc s right) (rw e (LacksKey-from_secret pc r s lacks))

  module _ (s : State) (name : String) (pc : ProviderConfig) (tracked : p.track s.calls ≡ none)
      (referred : s.cr.spec.provider_config_reference ≡ some name)
      (answered : p.provider_config (track_usage ∷ s.calls) name ≡ ok pc) where
    -- The state once the configuration was read.
    abbrev pub configured : State
    configured = record s { calls = get_provider_config name ∷ (track_usage ∷ s.calls) }

    pub connect_config : connect p quote s ≡ from_config p quote pc configured
    unfolding connect call
    connect_config = ground (arith, tracked, referred, answered)

    -- Where the usage is tracked and the provider's configuration is read, `Connect` returns a nil client
    -- without an error exactly where the configured source is not a Kubernetes secret, or that secret was
    -- read and has no bytes under the configured key.
    pub connect_nil_iff : ((connect p quote s).0 ≡ done none) ↔ HasNoKey pc configured
    connect_nil_iff = (
      λ h. from_config-HasNoKey pc configured (sym (ap (λ r. r.0) connect_config) ∙ h),
      λ h. ap (λ r. r.0) connect_config ∙ HasNoKey-from_config pc configured h,
    )
