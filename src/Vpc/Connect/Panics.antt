-- ===== src/Vpc/Connect/Panics.antt =====
-- Where `Connect` of the VPC endpoint controller panics.
use Prim.Native.String.{len}
use custome_provider_mongo_d.Prelude.{
  ◌≡◌, refl, sym, String, true, none, some, List, ◌∷◌, ◌==◌, arith, Option, ◌↔◌, ◌⊎◌, inl, inr,
  Bool-cases, ap, ◌∙◌, ltb,
}
use custome_provider_mongo_d.Go.Exec.{
  Outcome, Exec, Result, wrap, done, failed, panicked, ok, err, continue, or_panic, ◌>>=◌,
}
use custome_provider_mongo_d.Go.Json.{Document}
use custome_provider_mongo_d.Go.Struct.{read_struct, decode}
use custome_provider_mongo_d.Api.ProviderConfig.{
  ProviderConfig, SecretKeySelector, credentials_source_secret,
}
use custome_provider_mongo_d.Vpc.Platform.{
  Platform, State, Go, call, SecretValue, track_usage, get_provider_config, get_secret,
}
use custome_provider_mongo_d.Vpc.Client.{AwsCredentials}
use custome_provider_mongo_d.Vpc.Connect.{
  External, value_of, present, key_or_default, from_document, from_secret, from_config, connect,
  read_aws_credentials, no_credentials,
}
use custome_provider_mongo_d.Vpc.Connect.Unchecked.{
  namespace_in, answer_secret, secret_answer, secret_source, other_source,
}
use custome_provider_mongo_d.Vpc.Connect.Usable.{from_document_panics_iff}

module _ {S A B : Type 0} where
  -- Where a sequence panics, its first or its second part does.
  bind_panicked :
      (m : Exec S A) (f : A → Exec S B) (s : S)
      → ((m >>= f) s).0 ≡ panicked
      → ((m s).0 ≡ panicked) ⊎ ((a : A) × ((m s).0 ≡ done a) × ((f a (m s).1).0 ≡ panicked))
  unfolding ◌>>=◌
  bind_panicked m f s = decided (m s)
    where
      decided :
          (r : Outcome A × S)
          → (continue r f).0 ≡ panicked
          → (r.0 ≡ panicked) ⊎ ((a : A) × (r.0 ≡ done a) × ((f a r.1).0 ≡ panicked))
      decided (done a, t) h = inr (a, refl, h)
      decided (failed e, t) h = absurd (ground (arith, h))
      decided (panicked, t) h = inl refl

module _ (p : Platform) (quote : String → String) where
  -- The document decodes to credentials with an access key of less than four bytes.
  IsShort : Document → Type 0
  IsShort d =
      (c : AwsCredentials) × (decode (read_struct read_aws_credentials) no_credentials d ≡ ok c)
      × (ltb (len c.access_key_id) 4 ≡ true)

  -- The secret has a document under the key, which decodes to credentials with a short access key.
  pub HasShortKey : ProviderConfig → State → Type 0
  unfolding IsShort
  HasShortKey pc s =
      ((pc.spec.credentials.source == credentials_source_secret) ≡ true)
      × ((r : SecretKeySelector) × (pc.spec.credentials.secret_ref ≡ some r)
          × ((m : List (String × SecretValue)) × (p.secret s.calls (namespace_in pc r) r.name
                ≡ ok m)
              × ((d : Document) × (present (value_of (key_or_default r.key) m) ≡ some d)
                  × IsShort d)))

  document_panics :
      (key name : String) (d : Option Document) (s : State)
      → (from_document p quote key name d s).0 ≡ panicked
      → (e : Document) × (d ≡ some e) × IsShort e
  unfolding IsShort ◌>>=◌
  document_panics key name none s h = absurd (ground (arith, h))
  document_panics key name (some d) s h =
      (d, refl, (from_document_panics_iff p quote key name d s).0 h)

  secret_answered :
      (namespace name : String) (s : State)
      → (wrap "cannot get AWS credentials secret"
          (call (get_secret namespace name) (λ h. p.secret h namespace name))
          s).0
        ≡ panicked
      → ⊥
  unfolding call
  secret_answered namespace name s h = ground (arith, h)

  abbrev read_secret : ProviderConfig → SecretKeySelector → Go (List (String × SecretValue))
  read_secret pc r =
      wrap "cannot get AWS credentials secret"
        (call (get_secret (namespace_in pc r) r.name) (λ h. p.secret h (namespace_in pc r) r.name))

  from_secret_panics :
      (pc : ProviderConfig) (ref : Option SecretKeySelector) (s : State)
      → (from_secret p quote pc ref s).0 ≡ panicked
      → (r : SecretKeySelector) × (ref ≡ some r)
        × ((m : List (String × SecretValue)) × (p.secret s.calls (namespace_in pc r) r.name ≡ ok m)
            × ((d : Document) × (present (value_of (key_or_default r.key) m) ≡ some d) × IsShort d))
  unfolding ◌>>=◌
  from_secret_panics pc none s h = absurd (ground (arith, h))
  from_secret_panics pc (some r) s h =
      elim (bind_panicked (read_secret pc r)
        (λ m.
          from_document p quote (key_or_default r.key) r.name
            (present (value_of (key_or_default r.key) m)))
        s h) [
          | inl never ↦ absurd (secret_answered _ _ s never)
          | inr (m, answered, rest) ↦ (
            r,
            refl,
            (
              m,
              secret_answer p quote _ _ s m answered,
              document_panics (key_or_default r.key) r.name _ _ rest,
            ),
          )
        ]

  from_config_panics :
      (pc : ProviderConfig) (s : State) → (from_config p quote pc s).0 ≡ panicked → HasShortKey pc s
  unfolding HasShortKey
  from_config_panics pc s h =
      elim (Bool-cases (pc.spec.credentials.source == credentials_source_secret)) [
        | inl right ↦ (
          right,
          from_secret_panics pc _ s (sym (ap (λ r. r.0) (secret_source p quote pc s right)) ∙ h),
        )
        | inr other ↦ absurd (ground (arith, h, other_source p quote pc s other))
      ]

  panics_from_config :
      (pc : ProviderConfig) (s : State) → HasShortKey pc s → (from_config p quote pc s).0 ≡ panicked
  unfolding HasShortKey IsShort ◌>>=◌
  panics_from_config pc s (right, (r, referred, (m, answered, (d, found, short)))) =
      rw (secret_source p quote pc s right) (
        rw (referred, answer_secret p quote _ _ s m answered)
          (rw found ((from_document_panics_iff p quote (key_or_default r.key) r.name d _).1 short)))

  -- The configuration is read after the calls `h`, from the reference, and has a short key.
  pub ReadsShortKey : Option String → State → Type 0
  ReadsShortKey ref s =
      (name : String) × (ref ≡ some name)
      × ((pc : ProviderConfig) × (p.provider_config s.calls name ≡ ok pc)
          × HasShortKey pc (record s { calls = get_provider_config name ∷ s.calls }))

  abbrev referred : Option String → Go (Option External)
  referred ref = do
    name ← or_panic ref
    pc ←
        wrap "cannot get ProviderConfig"
          (call (get_provider_config name) (λ h. p.provider_config h name))
    from_config p quote pc

  config_panics :
      (name : String) (s : State) (r : Result ProviderConfig)
      → p.provider_config s.calls name ≡ r
      → (referred (some name) s).0 ≡ panicked
      → ReadsShortKey (some name) s
  unfolding ReadsShortKey call
  config_panics name s (ok pc) e h = (name, refl, (pc, e, from_config_panics pc _ (rw e at h)))
  config_panics name s (err f) e h = absurd (ground (arith, e, h))

  referred_panics :
      (ref : Option String) (s : State)
      → (referred ref s).0 ≡ panicked
      → (ref ≡ none) ⊎ ReadsShortKey ref s
  referred_panics none s h = inl refl
  referred_panics (some name) s h = inr (config_panics name s _ refl h)

  panics_referred :
      (ref : Option String) (s : State)
      → (ref ≡ none) ⊎ ReadsShortKey ref s
      → (referred ref s).0 ≡ panicked
  unfolding ReadsShortKey call
  panics_referred ref s (inl missing) = rw missing refl
  panics_referred ref s (inr (name, given, (pc, answered, short))) =
      rw given (rw answered (panics_from_config pc _ short))

  module _ (s : State) where
    abbrev tracked : State
    tracked = record s { calls = track_usage ∷ s.calls }

    connect-referred :
        p.track s.calls ≡ none
        → connect p quote s ≡ referred s.cr.spec.provider_config_reference tracked
    unfolding connect call
    connect-referred h = rw h refl

    connect_tracked : (connect p quote s).0 ≡ panicked → p.track s.calls ≡ none
    unfolding connect call
    connect_tracked h = ground (arith, h)

    -- `Connect` panics exactly where the usage is tracked and either the reference to the ProviderConfig is nil,
    -- or the ProviderConfig is read, its source is a Kubernetes secret, this secret is read, and its bytes under
    -- the configured key decode to credentials with an access key of less than four bytes.
    pub connect_panics_iff : ((connect p quote s).0 ≡ panicked) ↔ (
        (p.track s.calls ≡ none)
        × ((s.cr.spec.provider_config_reference ≡ none)
            ⊎ ReadsShortKey s.cr.spec.provider_config_reference tracked))
    connect_panics_iff = (
      λ h.
          let called = connect_tracked h in
          (called, referred_panics _ _ (sym (ap (λ r. r.0) (connect-referred called)) ∙ h)),
      λ (called, panics). ap (λ r. r.0) (connect-referred called) ∙ panics_referred _ _ panics,
    )
