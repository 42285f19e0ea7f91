-- ===== src/Organization/Create/Misnamed.antt =====
-- The name under which `Create` stores the API key in AWS, and the name that `Observe` wants.
use custome_provider_mongo_d.Organization.Names.Nonempty.{prefixed_name-nonempty}
use custome_provider_mongo_d.Organization.Create.Stored.{put_in_aws_done}
use custome_provider_mongo_d.Prelude.{
  ◌≡◌, ◌≢◌, ◌==◌, refl, sym, ap, ◌∙◌, String, Option, none, some, true, false, List, eq_iff, arith,
  Bool,
}
use custome_provider_mongo_d.Go.Exec.{Result, ok, err, done}
use custome_provider_mongo_d.Mongo.Service.{ApiKeyPair, Organization as AtlasOrganization}
use custome_provider_mongo_d.Api.Organization.{
  Organization, SecretStorageConfig, AwsSecretsManagerReference, secret_storage_type_aws,
  secret_storage_type_kubernetes,
}
use custome_provider_mongo_d.Organization.Platform.{Platform, External, State, Call, call}
use custome_provider_mongo_d.Organization.Names.{prefixed_name, final_secret_name}
use custome_provider_mongo_d.Organization.Observe.{
  observe, observe_settled, record_secret, is_up_to_date, secret_name_matches, desired_secret_name,
  stale,
}
use custome_provider_mongo_d.Organization.Observe.Storage.{
  IsSettled, observe-settled, record_secret-storage_type,
}
use custome_provider_mongo_d.Organization.Create.{store_api_key, put_in_aws}

-- AWS knows a secret, and its ARN.
abbrev pub is_described : Result (Option String) → Bool
is_described (ok (some arn)) = true
is_described (ok none) = false
is_described (err e) = false

module _ (p : Platform) (c : External) (region : String) (config : SecretStorageConfig)
    (client : c.aws_region ≡ some region)
    (in_aws : config.storage_type ≡ secret_storage_type_aws) where
  no_kubernetes : (config.storage_type == secret_storage_type_kubernetes) ≡ false
  no_kubernetes = rw in_aws refl

  is_aws : (config.storage_type == secret_storage_type_aws) ≡ true
  is_aws = rw in_aws refl

  desired-final :
      (o cr : Organization)
      → cr.spec.for_provider.secret_storage_config ≡ some config
      → o.spec ≡ cr.spec
      → o.metadata ≡ cr.metadata
      → desired_secret_name o ≡ final_secret_name cr
  unfolding desired_secret_name final_secret_name
  desired-final o cr configured spec metadata =
      ground (arith, configured, spec, metadata, no_kubernetes)

  module _ (s : State) (configured : s.cr.spec.for_provider.secret_storage_config ≡ some config)
      (undescribed : (h : List Call)
        → is_described ((p.secrets h region).describe_secret (final_secret_name s.cr))
          ≡ false) where
    cr-record_secret : (record_secret p c s).1.cr ≡ record s.cr {
      status = record s.cr.status {
        at_provider = record s.cr.status.at_provider {
          secret_storage_type = secret_storage_type_aws;
        };
      };
    }
    unfolding record_secret call
    cr-record_secret =
        ground (arith, configured, client, no_kubernetes, is_aws, undescribed s.calls)

    not_up_to_date :
        (s.cr.status.at_provider.secret_name == "") ≡ false
        → s.cr.status.at_provider.secret_name ≢ final_secret_name s.cr
        → is_up_to_date (record_secret p c s).1.cr ≡ false
    unfolding is_up_to_date secret_name_matches
    not_up_to_date given other = rw cr-record_secret (
        ground (
          arith,
          given,
          desired-final (record_secret p c s).1.cr s.cr configured (rw cr-record_secret refl)
              (rw cr-record_secret refl),
          other,
          cr-record_secret,
          eq_iff s.cr.status.at_provider.secret_name (final_secret_name s.cr),
        ))

    observe_misnamed :
        IsSettled p s.cr
        → (s.cr.status.at_provider.secret_name == "") ≡ false
        → s.cr.status.at_provider.secret_name ≢ final_secret_name s.cr
        → (observe p c s).0 ≡ done stale
    unfolding observe_settled call
    observe_misnamed settled given other =
        rw (observe-settled p c s settled)
          (ground (arith, not_up_to_date given other, record_secret-storage_type p c s))

  store_in_given_name :
      (key : ApiKeyPair) (org : AtlasOrganization) (given : AwsSecretsManagerReference) (s : State)
      → s.cr.spec.for_provider.secret_storage_config ≡ some config
      → config.aws ≡ some given
      → store_api_key p c org key s
        ≡ put_in_aws p c region (prefixed_name given org.name) org.id given.kms_key_id key s
  unfolding store_api_key call
  store_in_given_name key org given s configured named =
      ground (arith, configured, no_kubernetes, is_aws, client, named)

  -- `Create` and `Observe` name the AWS secret by different parts of the spec. Where the storage
  -- configuration stores the key in AWS under a name that differs from the one that `Observe` wants, and AWS
  -- has no secret of the wanted name, then after the key was stored `Observe` of the resource, which has its
  -- external name and is not being deleted, succeeds and reports that it is not up to date.
  pub observe-store_api_key :
      (key : ApiKeyPair) (org : AtlasOrganization) (given : AwsSecretsManagerReference) (s : State)
      (arn : String)
      → s.cr.spec.for_provider.secret_storage_config ≡ some config
      → config.aws ≡ some given
      → ((h : List Call)
          → is_described ((p.secrets h region).describe_secret (final_secret_name s.cr)) ≡ false)
      → prefixed_name given org.name ≢ final_secret_name s.cr
      → IsSettled p s.cr
      → (store_api_key p c org key s).0 ≡ done arn
      → (observe p c (store_api_key p c org key s).1).0 ≡ done stale
  unfolding final_secret_name
  observe-store_api_key key org given s arn configured named undescribed other settled h =
      let steps = store_in_given_name key org given s configured named in
      let (accepted, after) =
        put_in_aws_done p c key region (prefixed_name given org.name) org.id given.kms_key_id s arn
          (sym (ap (λ r. r.0) steps) ∙ h) in
      rw (steps, after)
        (observe_misnamed _ configured undescribed
          (record { named = settled.named; live = settled.live })
          (prefixed_name-nonempty given org.name) other)
