-- ===== src/Vpc/Connect.antt =====
-- `Connect` of internal/controller/vpcendpoint/vpcendpoint.go.
pub mod Unchecked
pub mod Usable
pub mod Panics
use Prim.Native.String.{len}
use custome_provider_mongo_d.Prelude.{
  ℕ, String, ◌<>◌, Bool, ◌&&◌, ◌||◌, Option, none, some, List, [], ◌∷◌, ◌==◌, ltb, nat_eq,
  if◌then◌else◌,
}
use custome_provider_mongo_d.Go.Fault.{Fault, plain, wrapped, foreign}
use custome_provider_mongo_d.Go.Exec.{
  Result, ok, err, pure, throw, panic, or_panic, wrap, from_result, ◌>>=◌, ◌>>◌,
}
use custome_provider_mongo_d.Go.Json.{Document, malformed, json, Fields, Decoded, read_string}
use custome_provider_mongo_d.Go.Struct.{into_field, read_struct, decode}
use custome_provider_mongo_d.Api.ProviderConfig.{
  ProviderConfig, SecretKeySelector, credentials_source_secret,
}
use custome_provider_mongo_d.Vpc.Platform.{
  Ec2Config, Platform, Go, State, Call, SecretValue, call, track_usage, get_provider_config,
  get_secret, result_of, get_cr,
}
use custome_provider_mongo_d.Vpc.Client.{AwsCredentials}

-- The configuration of the client of EC2, in the place of the `external` that holds the client.
pub record External : Type 0 where
  pub config : Ec2Config

-- The endpoint is that of the region.
unfoldable pub endpoint_config : AwsCredentials → Ec2Config
endpoint_config creds = record {
  region = creds.region;
  access_key_id = creds.access_key_id;
  secret_access_key = creds.secret_access_key;
  session_token = creds.session_token;
  endpoint_url = "https://ec2." <> (creds.region <> ".amazonaws.com");
}

abbrev pub read_aws_credentials : Fields → Decoded AwsCredentials → Decoded AwsCredentials
read_aws_credentials fs d =
    into_field read_string "region" (λ (c : AwsCredentials). c.region)
      (λ c v. record c { region = v }) fs
      (into_field read_string "sessionToken" (λ (c : AwsCredentials). c.session_token)
        (λ c v. record c { session_token = v }) fs
        (into_field read_string "secretAccessKey" (λ (c : AwsCredentials). c.secret_access_key)
          (λ c v. record c { secret_access_key = v }) fs
          (into_field read_string "accessKeyId" (λ (c : AwsCredentials). c.access_key_id)
            (λ c v. record c { access_key_id = v }) fs d)))

abbrev pub no_credentials : AwsCredentials
no_credentials = record {
  access_key_id = "";
  secret_access_key = "";
  session_token = "";
  region = "";
}

-- `errors.Wrapf`, which is nil for a nil error: the handler then returns nil for both its results.
abbrev pub wrapf : Option Fault → String → Go (Option External)
wrapf none msg = pure none
wrapf (some e) msg = throw (wrapped msg e)

-- The value of a key of a secret, nil where it is missing.
unfoldable pub value_of : String → List (String × SecretValue) → Option SecretValue
value_of k [] = none
value_of k ((j, v) ∷ m) = if j == k then some v else value_of k m

abbrev pub present : Option SecretValue → Option Document
present none = none
present (some v) = if nat_eq v.size 0 then none else some v.document

abbrev pub key_or_default : String → String
key_or_default key = if key == "" then "credentials" else key

abbrev pub namespace_or : String → String → String
namespace_or namespace otherwise = if namespace == "" then otherwise else namespace

-- `%q` of the two names is a library's text.
module _ (p : Platform) (quote : String → String) where
  -- `NewVPCEndpointClient`
  unfoldable pub new_vpc_endpoint_client : AwsCredentials → Go External
  new_vpc_endpoint_client creds =
      if creds.region == "" then throw (plain "region is required in credentials") else (do
        wrap "failed to load AWS config" (λ (t : State).
            (from_result (result_of (p.load_config t.calls (endpoint_config creds))), t))
        pure (record { config = endpoint_config creds }))

  abbrev pub validated : AwsCredentials → Go (Option External)
  validated creds =
      if creds.region == ""
      then throw (plain "AWS region not found in credentials")
      else if creds.access_key_id == "" || creds.secret_access_key == ""
      then throw (plain "AWS credentials missing required fields: accessKeyId and secretAccessKey")
      else (do
        client ← wrap "cannot create AWS VPC endpoint client" (new_vpc_endpoint_client creds)
        pure (some client))

  -- The log line slices the key, which panics below four bytes.
  unfoldable pub logged : AwsCredentials → Go (Option External)
  logged creds = if ltb (len creds.access_key_id) 4 then panic else validated creds

  abbrev pub parsed : Result AwsCredentials → Go (Option External)
  parsed (err e) = throw (wrapped "cannot unmarshal AWS credentials from secret" e)
  parsed (ok creds) = logged creds

  abbrev pub from_document : String → String → Option Document → Go (Option External)
  from_document key name none =
      wrapf none ("credentials key " <> (quote key <> (" not found in secret " <> quote name)))
  from_document key name (some d) =
      parsed (decode (read_struct read_aws_credentials) no_credentials d)

  abbrev pub from_secret : ProviderConfig → Option SecretKeySelector → Go (Option External)
  from_secret pc none = throw (plain "secretRef must be specified when using Secret source")
  from_secret pc (some r) = do
    let namespace = namespace_or r.namespace pc.namespace
    secret ←
        wrap "cannot get AWS credentials secret"
          (call (get_secret namespace r.name) (λ h. p.secret h namespace r.name))
    from_document (key_or_default r.key) r.name (present (value_of (key_or_default r.key) secret))

  abbrev pub from_config : ProviderConfig → Go (Option External)
  from_config pc =
      if pc.spec.credentials.source == credentials_source_secret
      then from_secret pc pc.spec.credentials.secret_ref
      else wrapf none ("unsupported credentials source: " <> pc.spec.credentials.source)

  -- A nil reference to the ProviderConfig is dereferenced.
  unfoldable pub connect : Go (Option External)
  connect = do
    wrap "cannot track ProviderConfig usage" (call track_usage (λ h. result_of (p.track h)))
    cr ← get_cr
    name ← or_panic cr.spec.provider_config_reference
    pc ←
        wrap "cannot get ProviderConfig"
          (call (get_provider_config name) (λ h. p.provider_config h name))
    from_config pc
