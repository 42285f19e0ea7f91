-- ===== src/Organization/Create/Stored.antt =====
-- Where `Create` stores the API key, and where the other handlers look for it.
use custome_provider_mongo_d.Organization.Secrets.RoundTrip.{get_k8s_secret-credentials_secret}
use custome_provider_mongo_d.Prelude.{
  ◌≡◌, ◌==◌, refl, ap, String, Option, none, some, false, ◌∷◌, arith, ◌⊎◌, inl, inr,
}
use custome_provider_mongo_d.Go.Exec.{ok, done}
use custome_provider_mongo_d.Mongo.Service.{ApiKeyPair, Organization as AtlasOrganization}
use custome_provider_mongo_d.Api.Organization.{
  Organization, SecretStorageConfig, AwsSecretsManagerReference, secret_storage_type_aws,
  secret_storage_type_kubernetes, OrganizationObservation,
}
use custome_provider_mongo_d.Organization.Platform.{
  Platform, External, State, call, aws_put_secret, Go,
}
use custome_provider_mongo_d.Organization.Names.{
  k8s_secret_name, k8s_secret_namespace, prefixed_name, final_secret_name,
}
use custome_provider_mongo_d.Organization.Secrets.{
  fetch_org_credentials, create_or_update_k8s_secret, recorded_secret_name,
}
use custome_provider_mongo_d.Organization.Network.{key_credentials}
use custome_provider_mongo_d.Organization.Create.{
  store_api_key, store_in_kubernetes, put_in_aws, key_secret, stored_in_aws, store_by,
  store_by_default, store_in_aws,
}
use custome_provider_mongo_d.Organization.Secrets.ReadsBack.{
  ReadsBack, reads-create_or_update_k8s_secret, cr-create_or_update_k8s_secret,
}
use custome_provider_mongo_d.Organization.Names.Nonempty.{
  prefixed_name-nonempty, final_secret_name-nonempty,
}

-- The configuration names one of the two stores, or there is none.
unfoldable pub IsKnownStore : Option SecretStorageConfig → Type 0
IsKnownStore none = Unit
IsKnownStore (some config) =
    (config.storage_type ≡ secret_storage_type_kubernetes)
    ⊎ (config.storage_type ≡ secret_storage_type_aws)

-- The status after the key was stored in Kubernetes.
abbrev stored_in_kubernetes : Organization → OrganizationObservation → OrganizationObservation
stored_in_kubernetes cr o = record o {
  secret_name = k8s_secret_name cr;
  secret_namespace = k8s_secret_namespace cr;
  secret_storage_type = secret_storage_type_kubernetes;
  created_with_credential_source = "Kubernetes";
}

module _ (p : Platform) (c : External) (key : ApiKeyPair) where
  pub put_in_aws_done :
      (region name org_id : String) (kms_key_id : Option String) (s : State) (arn : String)
      → (put_in_aws p c region name org_id kms_key_id key s).0 ≡ done arn
      → ((p.secrets s.calls region).put_secret name (key_secret key) org_id kms_key_id ≡ ok arn)
        × ((put_in_aws p c region name org_id kms_key_id key s).1 ≡ record s {
          calls = aws_put_secret name (key_secret key) org_id kms_key_id ∷ s.calls;
          cr = record s.cr {
            status = record s.cr.status {
              at_provider = stored_in_aws name arn s.cr.status.at_provider;
            };
          };
        })
  unfolding call
  put_in_aws_done region name org_id kms_key_id s arn h = (ground (arith, h), ground (arith, h))

module _ (p : Platform) (reads : ReadsBack p) where
  module _ (c : External) (key : ApiKeyPair) where
    -- The action leaves the key where the other handlers find it.
    abbrev Leaves : Go String → State → Type 0
    Leaves m s =
        (arn : String)
        → (m s).0 ≡ done arn
        → (fetch_org_credentials p c (m s).1.cr (m s).1).0 ≡ done (key_credentials key)

    put_in_aws-Leaves :
        (region name org_id : String) (kms_key_id : Option String) (s : State)
        → c.aws_region ≡ some region
        → (name == "") ≡ false
        → Leaves (put_in_aws p c region name org_id kms_key_id key) s
    unfolding fetch_org_credentials recorded_secret_name call
    put_in_aws-Leaves region name org_id kms_key_id s client named arn h =
        let (accepted, after) = put_in_aws_done p c key region name org_id kms_key_id s arn h in
        rw after (
          ground (
            arith,
            client,
            named,
            reads.put s.calls region name (key_secret key) org_id kms_key_id arn accepted,
          ))

    in_kubernetes_done :
        (s : State) (arn : String)
        → (store_in_kubernetes p c key s).0 ≡ done arn
        → ((create_or_update_k8s_secret p s.cr key s).0 ≡ done tt)
          × ((store_in_kubernetes p c key s).1
              ≡ record (create_or_update_k8s_secret p s.cr key s).1 {
                cr = record s.cr {
                  status = record s.cr.status {
                    at_provider = stored_in_kubernetes s.cr s.cr.status.at_provider;
                  };
                };
              })
    unfolding call
    in_kubernetes_done s arn h = (
      ground (arith, h, cr-create_or_update_k8s_secret p reads s.cr key s),
      ground (arith, h, cr-create_or_update_k8s_secret p reads s.cr key s),
    )

    in_kubernetes-Leaves : (s : State) → Leaves (store_in_kubernetes p c key) s
    unfolding fetch_org_credentials k8s_secret_name k8s_secret_namespace call
    in_kubernetes-Leaves s arn h =
        let (accepted, after) = in_kubernetes_done s arn h in
        rw after (
          ap (λ r. r.0)
            (get_k8s_secret-credentials_secret p _ _ s.cr key
              (reads-create_or_update_k8s_secret p reads s.cr key s accepted)))

    by_default-Leaves :
        (region : Option String) (config : Option AwsSecretsManagerReference)
        (org : AtlasOrganization) (s : State)
        → c.aws_region ≡ region
        → Leaves (store_by_default p c region config org key) s
    unfolding call
    by_default-Leaves none config org s client arn h = absurd (ground (arith, h))
    by_default-Leaves (some region) none org s client arn h = absurd (ground (arith, h))
    by_default-Leaves (some region) (some config) org s client arn h =
        put_in_aws-Leaves region (final_secret_name s.cr) org.id config.kms_key_id s client
          (final_secret_name-nonempty s.cr) arn h

    in_aws-Leaves :
        (region : Option String) (config : Option AwsSecretsManagerReference)
        (org : AtlasOrganization) (s : State)
        → c.aws_region ≡ region
        → Leaves (store_in_aws p c region config org key) s
    unfolding call
    in_aws-Leaves none config org s client arn h = absurd (ground (arith, h))
    in_aws-Leaves (some region) none org s client arn h = absurd (ground (arith, h))
    in_aws-Leaves (some region) (some config) org s client arn h =
        put_in_aws-Leaves region (prefixed_name config org.name) org.id config.kms_key_id s client
          (prefixed_name-nonempty config org.name) arn h

    store_by-Leaves :
        (cr : Organization) (config : Option SecretStorageConfig) (org : AtlasOrganization)
        (s : State)
        → IsKnownStore config
        → Leaves (store_by p c cr config org key) s
    unfolding IsKnownStore
    store_by-Leaves cr none org s known =
        by_default-Leaves c.aws_region cr.spec.for_provider.aws_secrets_config org s refl
    store_by-Leaves cr (some config) org s (inl kubernetes) = rw kubernetes (in_kubernetes-Leaves s)
    store_by-Leaves cr (some config) org s (inr aws) =
        rw aws (in_aws-Leaves c.aws_region config.aws org s refl)

    -- The key that `Create` stores is the one that the other handlers read. Where the cluster and AWS give
    -- back what they accepted to write, and the configuration names one of the two stores or there is none,
    -- then where storing the key returns, the credentials that `Update` and `Delete` fetch by the status that
    -- it leaves are the key.
    pub fetch_org_credentials-store_api_key :
        (org : AtlasOrganization) (s : State) (arn : String)
        → IsKnownStore s.cr.spec.for_provider.secret_storage_config
        → (store_api_key p c org key s).0 ≡ done arn
        → (fetch_org_credentials p c
            (store_api_key p c org key s).1.cr
            (store_api_key p c org key s).1).0
          ≡ done (key_credentials key)
    unfolding store_api_key call
    fetch_org_credentials-store_api_key org s arn known h =
        store_by-Leaves s.cr s.cr.spec.for_provider.secret_storage_config org s known arn h
