-- ===== src/Organization/Platform.antt =====
-- The world of the organization controller: the calls that its handlers make, what answers them, and
-- the state that a handler runs on.
-- Every call is recorded, the latest first, and is answered by a function of the calls before it, so
-- that a `Platform` is any environment: the Kubernetes API, Atlas and AWS may answer the same call
-- differently each time.
use custome_provider_mongo_d.Prelude.{◌≡◌, String, Bool, Option, List, ◌∷◌}
use custome_provider_mongo_d.Prelude.Lists.{member}
use custome_provider_mongo_d.Go.Exec.{Result, Exec, from_result, gets, modify, ◌>>=◌}
use custome_provider_mongo_d.Go.Fault.{Fault}
use custome_provider_mongo_d.Go.Json.{Document}
use custome_provider_mongo_d.Api.ProviderConfig.{ProviderConfig}
use custome_provider_mongo_d.Api.Organization.{Organization, ObjectMeta, Condition, Time}
use custome_provider_mongo_d.Mongo.Service.{
  Credentials, Service, CreateOrganizationInput, AddIpInput,
}
use custome_provider_mongo_d.Aws.Secrets.{MongoDbApiCredentials, SecretsClient}

-- The parts of a `corev1.Secret` that the controller writes and reads.
pub record Secret : Type 0 where
  pub name : String
  pub namespace : String
  pub labels : List (String × String)
  pub secret_data : List (String × Document)

pub data AtlasCall : Type 0 where
  create_organization : CreateOrganizationInput → AtlasCall
  get_organization_by_name : String → AtlasCall
  delete_organization : String → AtlasCall
  verify_organization_deletion : String → AtlasCall
  find_api_key_id : String → String → AtlasCall
  add_ips : String → String → List AddIpInput → AtlasCall
  remove_ip : String → String → String → AtlasCall
  update_description : String → String → String → AtlasCall
  update_roles : String → String → List String → AtlasCall
  set_enforcement : String → Bool → AtlasCall

pub data Call : Type 0 where
  track_config_usage : Call
  kube_get_provider_config : String → Call
  kube_get_organization : String → Call
  kube_update_organization : Organization → Call
  kube_update_status : Organization → Call
  kube_get_secret : String → String → Call
  kube_create_secret : Secret → Call
  kube_update_secret : Secret → Call
  kube_delete_secret : String → String → Call
  aws_put_secret : String → MongoDbApiCredentials → String → Option String → Call
  aws_get_secret : String → Call
  aws_describe_secret : String → Call
  aws_delete_secret : String → Bool → Call
  atlas : Credentials → AtlasCall → Call

-- The Kubernetes API client. A successful update answers the object as the server returned it.
pub record Kube : Type 0 where
  pub get_organization : String → Result Organization
  pub update_organization : Organization → Result Organization
  pub update_status : Organization → Result Organization
  pub get_secret : String → String → Result Secret
  pub create_secret : Secret → Result (Unit {0})
  pub update_secret : Secret → Result (Unit {0})
  pub delete_secret : String → String → Result (Unit {0})

-- `track` is the tracker of ProviderConfig usages, and `load_aws_config` the SDK's configuration for a
-- region. The functions on metadata are those of crossplane-runtime's package `meta`, and `set_condition` is
-- `SetConditions` of the resource's status. `range_keys` is the order in which Go ranges over a map with
-- the given keys, which differs from run to run.
pub record Platform : Type 0 where
  pub kube : List Call → Kube
  pub service : List Call → Credentials → Service
  pub secrets : List Call → String → SecretsClient
  pub now : List Call → Time
  pub track : List Call → Option Fault
  pub provider_config : List Call → String → Result ProviderConfig
  pub load_aws_config : List Call → String → Option Fault
  pub get_external_name : ObjectMeta → String
  pub set_external_name : ObjectMeta → String → ObjectMeta
  pub finalizer_exists : ObjectMeta → String → Bool
  pub remove_finalizer : ObjectMeta → String → ObjectMeta
  pub set_condition : List Condition → Condition → List Condition
  pub range_keys : List Call → List String → List String

-- What the controller relies on: an external name that is set can be read back, and setting it
-- leaves the resource's name alone; a range over a map visits the map's keys.
pub record IsLawful (p : Platform) : Type 0 where
  pub get-set_external_name :
      (m : ObjectMeta) (name : String) → p.get_external_name (p.set_external_name m name) ≡ name
  pub name-set_external_name :
      (m : ObjectMeta) (name : String) → (p.set_external_name m name).name ≡ m.name
  pub member-range_keys :
      (h : List Call) (m : List String) (x : String) → member (p.range_keys h m) x ≡ member m x

-- `external`: the parent credentials that `client` was made with, and the region of the AWS client,
-- which is nil if there is none.
pub record External : Type 0 where
  pub credentials : Credentials
  pub aws_region : Option String

-- The calls so far, and the resource `cr` that the handler was given by reference.
pub record State : Type 0 where
  pub calls : List Call
  pub cr : Organization

abbrev pub Go : Type 0 → Type 0
Go A = Exec State A

-- Opening this opens the actions of `Exec` too.
unfoldable pub call : {A : Type 0} → Call → (List Call → Result A) → Go A
unfolding ◌>>=◌
call c answer s = (from_result (answer s.calls), record s { calls = c ∷ s.calls })

-- Calls of the Kubernetes client.
module _ (p : Platform) where
  abbrev pub kube_get : String → Go Organization
  kube_get name = call (kube_get_organization name) (λ h. (p.kube h).get_organization name)

  abbrev pub kube_update : Organization → Go Organization
  kube_update o = call (kube_update_organization o) (λ h. (p.kube h).update_organization o)

  abbrev pub kube_status_update : Organization → Go Organization
  kube_status_update o = call (kube_update_status o) (λ h. (p.kube h).update_status o)

  abbrev pub kube_secret : String → String → Go Secret
  kube_secret namespace name =
      call (kube_get_secret namespace name) (λ h. (p.kube h).get_secret namespace name)

  abbrev pub kube_secret_create : Secret → Go Unit
  kube_secret_create x = call (kube_create_secret x) (λ h. (p.kube h).create_secret x)

  abbrev pub kube_secret_update : Secret → Go Unit
  kube_secret_update x = call (kube_update_secret x) (λ h. (p.kube h).update_secret x)

  abbrev pub kube_secret_delete : String → String → Go Unit
  kube_secret_delete namespace name =
      call (kube_delete_secret namespace name) (λ h. (p.kube h).delete_secret namespace name)

-- Calls of the AWS client of a region.
module _ (p : Platform) (region : String) where
  abbrev pub put_secret : String → MongoDbApiCredentials → String → Option String → Go String
  put_secret name creds org_id key =
      call (aws_put_secret name creds org_id key)
        (λ h. (p.secrets h region).put_secret name creds org_id key)

  abbrev pub get_secret : String → Go MongoDbApiCredentials
  get_secret name = call (aws_get_secret name) (λ h. (p.secrets h region).get_secret name)

  abbrev pub describe_secret : String → Go (Option String)
  describe_secret name =
      call (aws_describe_secret name) (λ h. (p.secrets h region).describe_secret name)

  abbrev pub delete_secret : String → Bool → Go Unit
  delete_secret name force =
      call (aws_delete_secret name force) (λ h. (p.secrets h region).delete_secret name force)

-- Calls of an Atlas service made with some credentials.
abbrev pub atlas_call :
    {A : Type 0} → Platform → Credentials → AtlasCall → (Service → Result A) → Go A
atlas_call p creds c answer = call (atlas creds c) (λ h. answer (p.service h creds))

abbrev pub get_cr : Go Organization
get_cr = gets (λ (t : State). t.cr)

abbrev pub set_cr : (Organization → Organization) → Go Unit
set_cr f = modify (λ (t : State). record t { cr = f t.cr })
