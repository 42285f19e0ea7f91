-- ===== src/Tests/Sample.antt =====
-- A cluster, an Atlas account and an AWS account that answer every call with success.
use custome_provider_mongo_d.Prelude.{
  refl, true, false, String, Option, none, some, List, [], ◌∷◌, ◌==◌, if◌then◌else◌,
}
use custome_provider_mongo_d.Prelude.Lists.{member}
use custome_provider_mongo_d.Go.Exec.{Result, ok}
use custome_provider_mongo_d.Api.Organization.{
  Organization, OrganizationObservation, NetworkAccessConfig, IpAccessEntry, SecretStorageConfig,
}
use custome_provider_mongo_d.Api.ProviderConfig.{ProviderCredentials}
use custome_provider_mongo_d.Mongo.Service.{
  Service, Credentials, ApiKeyPair, Organization as AtlasOrganization, OrganizationSettings,
}
use custome_provider_mongo_d.Aws.Secrets.{SecretsClient, MongoDbApiCredentials}
use custome_provider_mongo_d.Organization.Platform.{
  Platform, IsLawful, External, State, Kube, Secret,
}

abbrev pub external_name : List (String × String) → String
external_name [] = ""
external_name ((k, v) ∷ l) = if k == "crossplane.io/external-name" then v else external_name l

abbrev pub observation : OrganizationObservation
observation = record {
  org_id = "";
  org_name = "";
  secret_name = "";
  secret_arn = "";
  kms_key_id = "";
  secret_namespace = "";
  secret_storage_type = "";
  created_at = none;
  created_with_credential_source = "";
  created_with_api_key_id = "";
  api_key_roles = [];
  last_deletion_attempt_time = none;
  deletion_attempt_count = 0;
  last_deletion_attempt_error = "";
  deletion_phase = "";
  enforcement_disabled_at = none;
  enforcement_disabled = false;
  ips_cleaned_up = false;
  dependencies_checked = false;
  last_rate_limit_hit_time = none;
  force_delete_after_failures = false;
  state = none;
  deleted_at = none;
  api_access_list_required = none;
  last_enforcement_toggle_time = none;
  enforcement_error = "";
  provisioned_ips = [];
  ip_access_entry_count = 0;
  last_ip_access_update = none;
  ip_access_error = "";
}

abbrev pub entry : String → IpAccessEntry
entry ip = record { ip = ip; comment = none; cidr_block = ""; created_at = none }

abbrev pub resource :
    String
    → Option SecretStorageConfig
    → NetworkAccessConfig
    → OrganizationObservation
    → Organization
resource id storage network seen = record {
  metadata = record {
    name = "acme";
    annotations = ("crossplane.io/external-name", id) ∷ [];
    finalizers = "finalizer.managedresource.crossplane.io" ∷ [];
    deletion_timestamp = none;
  };
  spec = record {
    provider_config_reference = some "default";
    for_provider = record {
      api_key = record { description = "key"; roles = "ORG_OWNER" ∷ [] };
      owner_id = "owner";
      secret_storage_config = storage;
      aws_secrets_config = none;
      network_access_config = network;
    };
  };
  status = record { conditions = []; at_provider = seen };
}

abbrev pub closed : NetworkAccessConfig
closed = record {
  enabled = false;
  ips = [];
  auto_cleanup = false;
  api_access_list_required = false;
}

abbrev pub guarded : NetworkAccessConfig
guarded = record {
  enabled = true;
  ips = entry "10.0.0.1" ∷ entry "10.0.0.2" ∷ [];
  auto_cleanup = true;
  api_access_list_required = true;
}

abbrev pub kubernetes_storage : SecretStorageConfig
kubernetes_storage = record { storage_type = "Kubernetes"; aws = none; kubernetes = none }

abbrev pub new_resource : Organization
new_resource = resource "" (some kubernetes_storage) guarded observation

abbrev pub settled_resource : Organization
settled_resource = resource "5f1a" (some kubernetes_storage) guarded observation

abbrev pub key : ApiKeyPair
key = record { public_key = "publicke"; private_key = "secret" }

abbrev pub parent : Credentials
parent = record { public_key = "parent"; private_key = "secret" }

abbrev pub atlas_org : AtlasOrganization
atlas_org = record {
  id = "5f1a";
  name = "acme";
  org_owner_id = "owner";
  is_deleted = false;
  created = "";
}

abbrev pub settings : OrganizationSettings
settings = record {
  api_access_list_required = false;
  gen_ai_features_enabled = false;
  multi_factor_auth_required = false;
  restrict_employee_access = false;
}

abbrev pub service : Result (Unit {0}) → Service
service verified = record {
  create_organization = λ input. ok (atlas_org, key);
  get_organization = λ id. ok atlas_org;
  get_organization_by_name = λ name. ok none;
  get_organization_by_id = λ id. ok atlas_org;
  update_organization = λ input. ok atlas_org;
  delete_organization = λ id. ok tt;
  verify_organization_deletion = λ id. verified;
  add_ip_to_access_list = λ id input. ok tt;
  remove_ip_from_access_list = λ id ip. ok tt;
  get_ip_access_list = λ id. ok [];
  find_api_key_id = λ id public description. ok "key-id";
  add_ips_to_api_key_access_list = λ id key_id inputs. ok tt;
  remove_ip_from_api_key_access_list = λ id key_id ip. ok tt;
  update_org_api_key_description = λ id key_id text. ok tt;
  update_org_api_key_roles = λ id key_id roles. ok tt;
  set_org_admin_api_ip_enforcement = λ id required. ok tt;
  get_org_admin_api_ip_enforcement = λ id. ok true;
  get_organization_settings = λ id. ok settings;
  update_organization_settings = λ id update. ok settings;
}

abbrev pub secrets : Result MongoDbApiCredentials → SecretsClient
secrets answer = record {
  put_secret = λ name creds id kms. ok "arn";
  get_secret = λ name. answer;
  describe_secret = λ name. ok (some "arn");
  delete_secret = λ name force. ok tt;
}

abbrev pub stored : Secret
stored = record { name = "acme"; namespace = "crossplane-system"; labels = []; secret_data = [] }

abbrev pub secret_credentials : ProviderCredentials
secret_credentials = record {
  source = "Secret";
  secret_ref =
      some (record { name = "atlas"; namespace = "crossplane-system"; key = "credentials" });
  aws = none;
}

abbrev kube : Secret → Kube
kube held = record {
  get_organization = λ name. ok settled_resource;
  update_organization = λ o. ok o;
  update_status = λ o. ok o;
  get_secret = λ namespace name. ok held;
  create_secret = λ x. ok tt;
  update_secret = λ x. ok tt;
  delete_secret = λ namespace name. ok tt;
}

-- The check of a deletion, the AWS secret and the Kubernetes secret are given.
abbrev pub platform : Result (Unit {0}) → Result MongoDbApiCredentials → Secret → Platform
platform verified answer held = record {
  kube = λ h. kube held;
  service = λ h creds. service verified;
  secrets = λ h region. secrets answer;
  now = λ h. 1700000000;
  track = λ h. none;
  provider_config =
      λ h name. ok (record { namespace = ""; spec = record { credentials = secret_credentials } });
  load_aws_config = λ h region. none;
  get_external_name = λ m. external_name m.annotations;
  set_external_name =
      λ m name. record m { annotations = ("crossplane.io/external-name", name) ∷ m.annotations };
  finalizer_exists = λ m name. member m.finalizers name;
  remove_finalizer = λ m name. record m { finalizers = [] };
  set_condition = λ l condition. condition ∷ l;
  range_keys = λ h m. m;
}

pub platform-IsLawful :
    (verified : Result (Unit {0})) (answer : Result MongoDbApiCredentials) (held : Secret)
    → IsLawful (platform verified answer held)
platform-IsLawful verified answer held = record {
  get-set_external_name = λ m name. refl;
  name-set_external_name = λ m name. refl;
  member-range_keys = λ h m x. refl;
}

abbrev pub aws_credentials : MongoDbApiCredentials
aws_credentials = record { public_key = "publicke"; private_key = "secret" }

abbrev pub usual : Platform
usual = platform (ok tt) (ok aws_credentials) stored

abbrev pub usual-IsLawful : IsLawful usual
usual-IsLawful = platform-IsLawful (ok tt) (ok aws_credentials) stored

abbrev pub with_aws : External
with_aws = record { credentials = parent; aws_region = some "eu-central-1" }

abbrev pub start : Organization → State
start cr = record { calls = []; cr = cr }
