-- ===== src/Organization/Names.antt =====
-- The helper functions of organization.go on names, keys and lists.
pub mod Sets
pub mod Mask
pub mod Nonempty
use Prim.Native.String.{len, slice}
use custome_provider_mongo_d.Prelude.{
  ◌-◌, String, ◌<>◌, Bool, false, not, ◌||◌, Option, none, some, List, [], ◌∷◌, ◌==◌, ltb, nat_eq,
  if◌then◌else◌,
}
use custome_provider_mongo_d.Prelude.Lists.{length, all_in}
use custome_provider_mongo_d.Api.Organization.{
  Organization, SecretStorageConfig, KubernetesSecretReference, AwsSecretsManagerReference,
}

abbrev pub secret_prefix : String
secret_prefix = "product/mongodb/"

abbrev pub default_k8s_secret_namespace : String
default_k8s_secret_namespace = "crossplane-system"

abbrev pub kubernetes_reference : Option SecretStorageConfig → Option KubernetesSecretReference
kubernetes_reference none = none
kubernetes_reference (some config) = config.kubernetes

abbrev pub namespace_or_default : Option KubernetesSecretReference → String
namespace_or_default none = default_k8s_secret_namespace
namespace_or_default (some r) = elim r.namespace [
  | none ↦ default_k8s_secret_namespace
  | some namespace ↦ namespace
]

unfoldable pub k8s_secret_namespace : Organization → String
k8s_secret_namespace cr =
    namespace_or_default (kubernetes_reference cr.spec.for_provider.secret_storage_config)

abbrev pub name_or_default : String → Option KubernetesSecretReference → String
name_or_default name none = name <> "-mongodb-credentials"
name_or_default name (some r) = elim r.name [
  | none ↦ name <> "-mongodb-credentials"
  | some given ↦ given
]

unfoldable pub k8s_secret_name : Organization → String
k8s_secret_name cr =
    name_or_default cr.metadata.name
      (kubernetes_reference cr.spec.for_provider.secret_storage_config)

-- The secret's name, if one is given and is not empty, behind the prefix; else the default.
abbrev pub prefixed_name : AwsSecretsManagerReference → String → String
prefixed_name r otherwise = elim r.secret_name [
  | none ↦ secret_prefix <> otherwise
  | some name ↦ if name == "" then secret_prefix <> otherwise else secret_prefix <> name
]

unfoldable pub final_secret_name : Organization → String
final_secret_name cr = elim cr.spec.for_provider.aws_secrets_config [
  | none ↦ secret_prefix <> cr.metadata.name
  | some r ↦ prefixed_name r cr.metadata.name
]

-- `len` and `slice` count bytes, as Go does.
unfoldable pub mask_api_key : String → String
mask_api_key k =
    if ltb (len k) 8 then "****" else slice k 0 4 <> ("****" <> slice k (len k - 4) (len k))

unfoldable pub contains_role : List String → String → Bool
contains_role [] role = false
contains_role (r ∷ list) role = r == role || contains_role list role

-- `ma` holds the members of `a`.
unfoldable pub equal_string_sets : List String → List String → Bool
equal_string_sets a b = if not (nat_eq (length a) (length b)) then false else all_in a b
