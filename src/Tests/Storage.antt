-- ===== src/Tests/Storage.antt =====
-- Where the API key is stored and found again, in the concrete environment.
use custome_provider_mongo_d.Organization.Names.{
  k8s_secret_name, k8s_secret_namespace, final_secret_name,
}
use custome_provider_mongo_d.Aws.Secrets.{MongoDbApiCredentials}
use custome_provider_mongo_d.Prelude.{
  ◌≡◌, ◌≢◌, refl, String, Option, inl, none, some, List, ◌∷◌, ◌==◌, ◌&&◌, if◌then◌else◌, eq_iff,
  eq_refl, arith, ◌∙◌,
}
use custome_provider_mongo_d.Go.Exec.{Result, done, ok, err, panicked}
use custome_provider_mongo_d.Go.Fault.{plain, kube, is_not_found, api_is_not_found}
use custome_provider_mongo_d.Api.Organization.{
  Organization, SecretStorageConfig, AwsSecretsManagerReference,
}
use custome_provider_mongo_d.Organization.Platform.{
  Platform, Secret, Call, kube_create_secret, kube_update_secret, aws_put_secret, call,
}
use custome_provider_mongo_d.Organization.Secrets.{
  fetch_org_credentials, create_or_update_k8s_secret, credentials_secret,
}
use custome_provider_mongo_d.Organization.Secrets.ReadsBack.{ReadsBack}
use custome_provider_mongo_d.Organization.Network.{key_credentials}
use custome_provider_mongo_d.Organization.Observe.{observe, stale}
use custome_provider_mongo_d.Organization.Create.{store_api_key, create}
use custome_provider_mongo_d.Organization.Update.{update}
use custome_provider_mongo_d.Organization.Delete.{delete}
use custome_provider_mongo_d.Organization.Create.Stored.{
  fetch_org_credentials-store_api_key, IsKnownStore,
}
use custome_provider_mongo_d.Organization.Create.Misnamed.{observe-store_api_key}
use custome_provider_mongo_d.Organization.Panics.Handlers.{handlers_do_not_panic}
use custome_provider_mongo_d.Tests.Sample.{
  usual, with_aws, start, resource, observation, guarded, kubernetes_storage, new_resource,
  atlas_org, key,
}

-- The secret that the last call wrote.
abbrev last_secret : List Call → Option Secret
last_secret (kube_create_secret x ∷ h) = some x
last_secret (kube_update_secret x ∷ h) = some x
last_secret _ = none

abbrev answered : Option Secret → String → String → Result Secret
answered none namespace name = err (kube is_not_found name)
answered (some x) namespace name =
    if x.namespace == namespace && x.name == name then ok x else err (plain "other")

abbrev last_put : List Call → String → Result MongoDbApiCredentials
last_put (aws_put_secret n creds org_id kms_key_id ∷ h) name =
    if n == name then ok creds else err (plain "other")
last_put _ name = err (plain "none")

-- A cluster and an AWS account that remember what was written last.
abbrev remembering : Platform
remembering = record usual {
  kube = λ h. record (usual.kube h) { get_secret = answered (last_secret h) };
  secrets = λ h region. record (usual.secrets h region) {
    get_secret = last_put h;
    describe_secret = λ name. ok none;
  };
}

named_in :
    (held : Option Secret) (namespace name : String) (x : Secret)
    → answered held namespace name ≡ ok x
    → (x.namespace ≡ namespace) × (x.name ≡ name)
named_in none namespace name x same = absurd (ground (arith, same))
named_in (some y) namespace name x same =
    ground (arith, same, eq_iff y.namespace namespace, eq_iff y.name name)

remembering-ReadsBack : ReadsBack remembering
remembering-ReadsBack = record {
  created = λ h x accepted. ground (arith, eq_refl x.namespace, eq_refl x.name);
  updated = λ h x accepted. ground (arith, eq_refl x.namespace, eq_refl x.name);
  named = λ h. named_in (last_secret h);
  put = λ h region name creds org_id kms_key_id arn accepted. ground (arith, eq_refl name);
}

stored_arn : (store_api_key remembering with_aws atlas_org key (start new_resource)).0 ≡ done ""
unfolding store_api_key create_or_update_k8s_secret credentials_secret k8s_secret_name
    k8s_secret_namespace api_is_not_found call
stored_arn = refl

known : IsKnownStore (some kubernetes_storage)
unfolding IsKnownStore
known = inl refl

fetch_org_credentials-store_api_key_example :
    (fetch_org_credentials remembering with_aws
      (store_api_key remembering with_aws atlas_org key (start new_resource)).1.cr
      (store_api_key remembering with_aws atlas_org key (start new_resource)).1).0
    ≡ done (key_credentials key)
fetch_org_credentials-store_api_key_example =
    fetch_org_credentials-store_api_key remembering remembering-ReadsBack with_aws key atlas_org
      (start new_resource) "" known stored_arn

-- A key that is stored in AWS under a name of its own.
abbrev named_reference : AwsSecretsManagerReference
named_reference = record { region = ""; secret_name = some "team"; kms_key_id = none }

abbrev named_storage : SecretStorageConfig
named_storage = record { storage_type = "AWS"; aws = some named_reference; kubernetes = none }

abbrev named_resource : Organization
named_resource = resource "5f1a" (some named_storage) guarded observation

named_arn : (store_api_key remembering with_aws atlas_org key (start named_resource)).0 ≡ done "arn"
unfolding store_api_key call
named_arn = refl

other_name : ◌≢◌ {A = String} "product/mongodb/team" "product/mongodb/acme"
other_name e = ground (arith, eq_iff "product/mongodb/team" "product/mongodb/acme", e)

named_final : final_secret_name named_resource ≡ "product/mongodb/acme"
unfolding final_secret_name
named_final = refl

observe-store_api_key_example :
    (observe remembering with_aws
      (store_api_key remembering with_aws atlas_org key (start named_resource)).1).0
    ≡ done stale
observe-store_api_key_example =
    observe-store_api_key remembering with_aws "eu-central-1" named_storage refl refl key atlas_org
      named_reference (start named_resource) "arn" refl refl (λ h. refl)
      (λ e. other_name (e ∙ named_final))
      (record { named = λ e. ground (arith, eq_iff "5f1a" "", e); live = refl }) named_arn

handlers_do_not_panic_example :
    ((observe usual with_aws (start new_resource)).0 ≢ panicked)
    × ((create usual with_aws (start new_resource)).0 ≢ panicked)
    × ((update usual with_aws (start new_resource)).0 ≢ panicked)
    × ((delete usual with_aws (start new_resource)).0 ≢ panicked)
handlers_do_not_panic_example =
    handlers_do_not_panic usual with_aws (start new_resource) kubernetes_storage refl
