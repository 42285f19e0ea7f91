-- ===== src/Vpc/Connect/Usable.antt =====
-- Which credentials `Connect` of the VPC endpoint controller makes a client of.
use Prim.Native.String.{len}
use custome_provider_mongo_d.Prelude.{
  ◌≡◌, refl, sym, String, true, false, none, some, ◌==◌, arith, ltb, ◌↔◌, inl, inr, Bool-cases,
  eq_iff, ap, ◌∙◌,
}
use custome_provider_mongo_d.Go.Exec.{Result, done, panicked, ok, err, ◌>>=◌}
use custome_provider_mongo_d.Go.Json.{Document}
use custome_provider_mongo_d.Go.Struct.{read_struct, decode}
use custome_provider_mongo_d.Vpc.Platform.{Platform, State, call}
use custome_provider_mongo_d.Vpc.Client.{AwsCredentials}
use custome_provider_mongo_d.Vpc.Connect.{
  External, endpoint_config, read_aws_credentials, no_credentials, new_vpc_endpoint_client,
  validated, logged, parsed, from_document,
}

module _ (p : Platform) (quote : String → String) where
  -- The credentials of a client, and what is asked of them.
  pub IsUsable : AwsCredentials → State → Type 0
  IsUsable c s =
      (ltb (len c.access_key_id) 4 ≡ false)
      × ((c.region == "") ≡ false)
      × ((c.secret_access_key == "") ≡ false)
      × (p.load_config s.calls (endpoint_config c) ≡ none)

  long_key : (key : String) → ltb (len key) 4 ≡ false → (key == "") ≡ false
  long_key key long = elim (Bool-cases (key == "")) [
    | inl empty ↦ absurd (ground (arith, long, ap (λ k. ltb (len k) 4) ((eq_iff key "").0 empty)))
    | inr h ↦ h
  ]

  logged_client :
      (c : AwsCredentials) (e : External) (s : State)
      → (logged p quote c s).0 ≡ done (some e)
      → (e.config ≡ endpoint_config c) × IsUsable c s
  unfolding logged new_vpc_endpoint_client call IsUsable
  logged_client c e s h = ground (arith, h)

  client_logged :
      (c : AwsCredentials) (s : State)
      → IsUsable c s
      → (logged p quote c s).0 ≡ done (some (record { config = endpoint_config c }))
  unfolding logged new_vpc_endpoint_client call IsUsable
  client_logged c s (long, region, secret, loads) =
      ground (arith, long, region, secret, loads, long_key c.access_key_id long)

  -- A client of the credentials that were read.
  pub IsClientOf : Result AwsCredentials → External → State → Type 0
  IsClientOf r e s =
      (c : AwsCredentials) × (r ≡ ok c) × (e.config ≡ endpoint_config c) × IsUsable c s

  parsed_client :
      (r : Result AwsCredentials) (e : External) (s : State)
      → (parsed p quote r s).0 ≡ done (some e)
      → IsClientOf r e s
  unfolding ◌>>=◌ IsClientOf
  parsed_client (ok c) e s h = let (same, usable) = logged_client c e s h in (c, refl, same, usable)
  parsed_client (err f) e s h = absurd (ground (arith, h))

  client_parsed :
      (r : Result AwsCredentials) (e : External) (s : State)
      → IsClientOf r e s
      → (parsed p quote r s).0 ≡ done (some e)
  unfolding IsClientOf
  client_parsed r e s (c, read, same, usable) =
      ap (λ x. (parsed p quote x s).0) read
      ∙ client_logged c s usable
      ∙ ap (λ g. done (some (record { config = g }))) (sym same)

  short_panics :
      (c : AwsCredentials) (s : State)
      → ltb (len c.access_key_id) 4 ≡ true
      → (logged p quote c s).0 ≡ panicked
  unfolding logged ◌>>=◌
  short_panics c s short = rw short refl

  validated_not_panicked :
      (c : AwsCredentials) (s : State) → (validated p quote c s).0 ≡ panicked → ⊥
  unfolding new_vpc_endpoint_client call
  validated_not_panicked c s h = ground (arith, h)

  logged_long :
      (c : AwsCredentials) (s : State)
      → ltb (len c.access_key_id) 4 ≡ false
      → logged p quote c s ≡ validated p quote c s
  unfolding logged
  logged_long c s long = rw long refl

  parsed_panics :
      (r : Result AwsCredentials) (s : State)
      → (parsed p quote r s).0 ≡ panicked
      → (c : AwsCredentials) × (r ≡ ok c) × (ltb (len c.access_key_id) 4 ≡ true)
  unfolding ◌>>=◌ logged
  parsed_panics (ok c) s h = elim (Bool-cases (ltb (len c.access_key_id) 4)) [
    | inl short ↦ (c, refl, short)
    | inr long ↦
        absurd (validated_not_panicked c s (sym (ap (λ r. r.0) (logged_long c s long)) ∙ h))
  ]
  parsed_panics (err f) s h = absurd (ground (arith, h))

  -- For a secret's document, `Connect` returns a client exactly where the document is decoded without an
  -- error into credentials with an access key of at least four bytes, a region and a secret key, and the SDK
  -- loads its configuration; the client is of these credentials and their region's endpoint.
  pub from_document_client_iff :
      (key name : String) (d : Document) (e : External) (s : State)
      → ((from_document p quote key name (some d) s).0 ≡ done (some e))
        ↔ IsClientOf (decode (read_struct read_aws_credentials) no_credentials d) e s
  from_document_client_iff key name d e s = (
    parsed_client (decode (read_struct read_aws_credentials) no_credentials d) e s,
    client_parsed (decode (read_struct read_aws_credentials) no_credentials d) e s,
  )

  -- The part of `Connect` from the secret's document on panics exactly where the document is decoded into
  -- credentials with an access key of less than four bytes, also where a field is missing.
  pub from_document_panics_iff :
      (key name : String) (d : Document) (s : State)
      → ((from_document p quote key name (some d) s).0 ≡ panicked) ↔ (
          (c : AwsCredentials) × (decode (read_struct read_aws_credentials) no_credentials d ≡ ok c)
          × (ltb (len c.access_key_id) 4 ≡ true))
  from_document_panics_iff key name d s = (
    parsed_panics (decode (read_struct read_aws_credentials) no_credentials d) s,
    λ (c, read, short). ap (λ r. (parsed p quote r s).0) read ∙ short_panics c s short,
  )
