-- ===== src/Organization/Connect.antt =====
-- `Connect` of the Organization controller.
pub mod Region
use custome_provider_mongo_d.Prelude.{String, ◌<>◌, Option, none, some, List, ◌==◌, if◌then◌else◌}
use custome_provider_mongo_d.Go.Fault.{Fault, plain, wrapped}
use custome_provider_mongo_d.Go.Exec.{
  Result, ok, err, pure, throw, panic, wrap, from_result, ◌>>=◌, ◌>>◌,
}
use custome_provider_mongo_d.Go.Json.{Document}
use custome_provider_mongo_d.Api.ProviderConfig.{
  ProviderConfig, ProviderCredentials, SecretKeySelector, AwsCredentialsSource,
  AwsSecretsManagerReference, credentials_source_secret, credentials_source_aws,
}
use custome_provider_mongo_d.Mongo.Service.{Credentials}
use custome_provider_mongo_d.Organization.Secrets.{lookup, unmarshal_credentials}
use custome_provider_mongo_d.Organization.Platform.{
  Platform, External, Go, State, call, track_config_usage, kube_get_provider_config, kube_secret,
  get_secret, get_cr,
}

abbrev pub result_of : Option Fault → Result (Unit {0})
result_of none = ok tt
result_of (some e) = err e

abbrev pub key_missing : SecretKeySelector → String
key_missing r = "key " <> (r.key <> (" not found in secret " <> (r.namespace <> ("/" <> r.name))))

-- The client's credentials, which are those of the key's document.
abbrev pub from_key : SecretKeySelector → Option Document → Go External
from_key r none = throw (plain (key_missing r))
from_key r (some d) = do
  creds ←
      wrap "cannot unmarshal credentials from Kubernetes Secret"
        (λ s. (from_result (unmarshal_credentials d), s))
  pure (record { credentials = creds; aws_region = none })

module _ (p : Platform) where
  abbrev pub from_kubernetes : Option SecretKeySelector → Go External
  from_kubernetes none =
      throw (plain "ProviderConfig SecretRef cannot be nil when source is Secret")
  from_kubernetes (some r) = do
    secret ← wrap "cannot get ProviderConfig Kubernetes Secret" (kube_secret p r.namespace r.name)
    from_key r (lookup r.key secret.secret_data)

  -- `NewClient` of the AWS client.
  unfoldable pub new_aws_client : String → Go String
  new_aws_client region = do
    wrap "cannot load AWS config"
        (λ (s : State). (from_result (result_of (p.load_aws_config s.calls region)), s))
    pure region

  abbrev pub from_aws_secret : String → String → Go External
  from_aws_secret region name = do
    client ← wrap "cannot create AWS client" (new_aws_client region)
    creds ← wrap "cannot get AWS secret from ProviderConfig" (get_secret p client name)
    pure (record {
      credentials = record { public_key = creds.public_key; private_key = creds.private_key };
      aws_region = some client;
    })

  abbrev pub from_named_secret : String → Option String → Go External
  from_named_secret region none = throw (plain "ProviderConfig AWS secret name cannot be empty")
  from_named_secret region (some name) =
      if name == ""
      then throw (plain "ProviderConfig AWS secret name cannot be empty")
      else from_aws_secret region name

  abbrev pub from_secrets_manager : Option AwsSecretsManagerReference → Go External
  from_secrets_manager none = throw (plain "ProviderConfig AWS secrets manager config missing")
  from_secrets_manager (some config) = from_named_secret config.region config.secret_name

  -- A nil AWS source is dereferenced.
  abbrev pub from_aws : Option AwsCredentialsSource → Go External
  from_aws none = panic
  from_aws (some aws) = from_secrets_manager aws.secrets_manager

  abbrev pub from_source : ProviderCredentials → Go External
  from_source c =
      if c.source == credentials_source_secret
      then from_kubernetes c.secret_ref
      else if c.source == credentials_source_aws
      then from_aws c.aws
      else throw (plain ("unsupported credentials source: " <> c.source))

  abbrev pub from_reference : Option String → Go External
  from_reference none = throw (plain "cannot get ProviderConfig")
  from_reference (some name) = do
    pc ←
        wrap "cannot get ProviderConfig"
          (call (kube_get_provider_config name) (λ h. p.provider_config h name))
    from_source pc.spec.credentials

  unfoldable pub connect : Go External
  connect = do
    wrap "cannot track ProviderConfig usage" (call track_config_usage (λ h. result_of (p.track h)))
    cr ← get_cr
    from_reference cr.spec.provider_config_reference
