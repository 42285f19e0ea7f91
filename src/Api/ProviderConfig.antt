-- ===== src/Api/ProviderConfig.antt =====
-- apis/v1alpha1/providerconfig_types.go: where the provider's credentials are.
use custome_provider_mongo_d.Prelude.{String, Option}

abbrev pub credentials_source_aws : String
credentials_source_aws = "AWS"

-- `xpv1.CredentialsSourceSecret`
abbrev pub credentials_source_secret : String
credentials_source_secret = "Secret"

pub record AwsSecretsManagerReference : Type 0 where
  pub region : String
  pub secret_name : Option String
  pub kms_key_id : Option String
  pub secret_key : Option String

pub record AwsCredentialsSource : Type 0 where
  pub secrets_manager : Option AwsSecretsManagerReference

-- `xpv1.SecretKeySelector`
pub record SecretKeySelector : Type 0 where
  pub name : String
  pub namespace : String
  pub key : String

pub record ProviderCredentials : Type 0 where
  pub source : String
  pub secret_ref : Option SecretKeySelector
  pub aws : Option AwsCredentialsSource

pub record ProviderConfigSpec : Type 0 where
  pub credentials : ProviderCredentials

-- A ProviderConfig is read only; of its metadata the namespace is read.
pub record ProviderConfig : Type 0 where
  pub namespace : String
  pub spec : ProviderConfigSpec
