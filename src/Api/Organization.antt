-- ===== src/Api/Organization.antt =====
-- apis/organization/v1alpha1/organization_types.go: the Organization resource.
-- A `string` enumeration stays a text, a `*T` is an `Option`, and a `metav1.Time` is its seconds.
use custome_provider_mongo_d.Prelude.{ℕ, String, Bool, Option, List}
use custome_provider_mongo_d.Go.Fault.{Fault}

abbrev pub Time : Type 0
Time = ℕ

abbrev pub secret_storage_type_aws : String
secret_storage_type_aws = "AWS"

abbrev pub secret_storage_type_kubernetes : String
secret_storage_type_kubernetes = "Kubernetes"

pub record KubernetesSecretReference : Type 0 where
  pub name : Option String
  pub namespace : Option String

pub record AwsSecretsManagerReference : Type 0 where
  pub region : String
  pub secret_name : Option String
  pub kms_key_id : Option String

pub record SecretStorageConfig : Type 0 where
  pub storage_type : String
  pub aws : Option AwsSecretsManagerReference
  pub kubernetes : Option KubernetesSecretReference

pub record IpAccessEntry : Type 0 where
  pub ip : String
  pub comment : Option String
  pub cidr_block : String
  pub created_at : Option Time

pub record NetworkAccessConfig : Type 0 where
  pub enabled : Bool
  pub ips : List IpAccessEntry
  pub auto_cleanup : Bool
  pub api_access_list_required : Bool

pub record OrganizationApiKey : Type 0 where
  pub description : String
  pub roles : List String

pub record OrganizationParameters : Type 0 where
  pub api_key : OrganizationApiKey
  pub owner_id : String
  pub secret_storage_config : Option SecretStorageConfig
  pub aws_secrets_config : Option AwsSecretsManagerReference
  pub network_access_config : NetworkAccessConfig

pub record OrganizationObservation : Type 0 where
  pub org_id : String
  pub org_name : String
  pub secret_name : String
  pub secret_arn : String
  pub kms_key_id : String
  pub secret_namespace : String
  pub secret_storage_type : String
  pub created_at : Option Time
  pub created_with_credential_source : String
  pub created_with_api_key_id : String
  pub api_key_roles : List String
  pub last_deletion_attempt_time : Option Time
  pub deletion_attempt_count : ℕ
  pub last_deletion_attempt_error : String
  pub deletion_phase : String
  pub enforcement_disabled_at : Option Time
  pub enforcement_disabled : Bool
  pub ips_cleaned_up : Bool
  pub dependencies_checked : Bool
  pub last_rate_limit_hit_time : Option Time
  pub force_delete_after_failures : Bool
  pub state : Option String
  pub deleted_at : Option Time
  pub api_access_list_required : Option Bool
  pub last_enforcement_toggle_time : Option Time
  pub enforcement_error : String
  pub provisioned_ips : List IpAccessEntry
  pub ip_access_entry_count : ℕ
  pub last_ip_access_update : Option Time
  pub ip_access_error : String

-- The conditions that the controllers set.
pub data Condition : Type 0 where
  available creating deleting : Condition
  unavailable : String → Condition
  reconcile_error : Fault → Condition

pub record OrganizationStatus : Type 0 where
  pub conditions : List Condition
  pub at_provider : OrganizationObservation

pub record OrganizationSpec : Type 0 where
  pub provider_config_reference : Option String
  pub for_provider : OrganizationParameters

-- The part of `metav1.ObjectMeta` that the controller reads and writes.
pub record ObjectMeta : Type 0 where
  pub name : String
  pub annotations : List (String × String)
  pub finalizers : List String
  pub deletion_timestamp : Option Time

pub record Organization : Type 0 where
  pub metadata : ObjectMeta
  pub spec : OrganizationSpec
  pub status : OrganizationStatus

abbrev pub organization_state_active : String
organization_state_active = "ACTIVE"

abbrev pub organization_state_deleting : String
organization_state_deleting = "DELETING"

abbrev pub organization_state_deleted : String
organization_state_deleted = "DELETED"
