-- ===== src/Provider/Kinds.antt =====
-- The kinds of resources: apis/*/groupversion_info.go and the names at the ends of the types' files.
use custome_provider_mongo_d.Prelude.{String}

-- `schema.GroupVersion`
pub record GroupVersion : Type 0 where
  pub group : String
  pub version : String

-- `schema.GroupVersionKind`
pub record GroupVersionKind : Type 0 where
  pub group_version : GroupVersion
  pub kind : String

abbrev pub with_kind : GroupVersion → String → GroupVersionKind
with_kind g kind = record { group_version = g; kind = kind }

abbrev pub provider_group : GroupVersion
provider_group = record { group = "mongodb.swapnil.io"; version = "v1alpha1" }

abbrev pub organization_group : GroupVersion
organization_group = record { group = "organization.mongodb.swapnil.io"; version = "v1alpha1" }

abbrev pub connectivity_group : GroupVersion
connectivity_group = record { group = "connectivity.mongodb.swapnil.io"; version = "v1alpha1" }

abbrev pub provider_config_kind : GroupVersionKind
provider_config_kind = with_kind provider_group "ProviderConfig"

abbrev pub provider_config_usage_kind : GroupVersionKind
provider_config_usage_kind = with_kind provider_group "ProviderConfigUsage"

abbrev pub provider_config_usage_list_kind : GroupVersionKind
provider_config_usage_list_kind = with_kind provider_group "ProviderConfigUsageList"

abbrev pub organization_kind : GroupVersionKind
organization_kind = with_kind organization_group "Organization"

abbrev pub vpc_endpoint_kind : GroupVersionKind
vpc_endpoint_kind = with_kind connectivity_group "VPCEndpoint"
