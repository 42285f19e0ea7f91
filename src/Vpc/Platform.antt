-- ===== src/Vpc/Platform.antt =====
-- What the VPC endpoint controller and its client call: EC2, the Kubernetes API and the timer.
use custome_provider_mongo_d.Prelude.{ℕ, ◌≡◌, String, Bool, Option, none, some, List, ◌∷◌}
use custome_provider_mongo_d.Go.Fault.{Fault}
use custome_provider_mongo_d.Go.Exec.{Result, ok, err, Exec, from_result, gets, modify, ◌>>=◌}
use custome_provider_mongo_d.Go.Json.{Document}
use custome_provider_mongo_d.Api.Organization.{ObjectMeta, Condition}
use custome_provider_mongo_d.Api.ProviderConfig.{ProviderConfig}
use custome_provider_mongo_d.Api.Connectivity.{VpcEndpoint}

-- `ec2.CreateVpcEndpointInput`, the fields that are set. Unset pointers are `none`.
pub record Ec2CreateInput : Type 0 where
  pub vpc_id : String
  pub service_name : String
  pub endpoint_type : String
  pub subnet_ids : List String
  pub security_group_ids : List String
  pub tags : Option (List (String × String))
  pub policy_document : Option String
  pub private_dns_enabled : Option Bool

-- `types.VpcEndpoint`, the fields that are read. Groups and DNS entries are their one pointer field.
pub record Ec2Endpoint : Type 0 where
  pub vpc_endpoint_id : Option String
  pub service_name : Option String
  pub state : String
  pub endpoint_type : String
  pub subnet_ids : List String
  pub groups : List (Option String)
  pub network_interface_ids : List String
  pub dns_names : List (Option String)

pub data Call : Type 0 where
  track_usage : Call
  get_provider_config : String → Call
  get_secret : String → String → Call
  ec2_create : Ec2CreateInput → Call
  ec2_describe : String → Call
  ec2_delete : String → Call
  ec2_modify : String → List String → Call
  wait_interval : Call

-- A `corev1.Secret`'s data, as documents with the number of their bytes.
pub record SecretValue : Type 0 where
  pub size : ℕ
  pub document : Document

-- What the SDK's configuration for EC2 is loaded with.
pub record Ec2Config : Type 0 where
  pub region : String
  pub access_key_id : String
  pub secret_access_key : String
  pub session_token : String
  pub endpoint_url : String

-- EC2 answers a creation by a pointer. `elapsed` is the `select` of the timer and the context: `none`
-- where the five seconds passed, the context's error where it was done. `load_config` loads the
-- SDK's configuration.
pub record Platform : Type 0 where
  pub track : List Call → Option Fault
  pub provider_config : List Call → String → Result ProviderConfig
  pub secret : List Call → String → String → Result (List (String × SecretValue))
  pub load_config : List Call → Ec2Config → Option Fault
  pub create : List Call → Ec2CreateInput → Result (Option Ec2Endpoint)
  pub describe : List Call → String → Result (List Ec2Endpoint)
  pub delete : List Call → String → Result (Unit {0})
  pub modify : List Call → String → List String → Result (Unit {0})
  pub elapsed : List Call → Option Fault
  pub range_tags : List Call → List (String × String) → List (String × String)
  pub get_external_name : ObjectMeta → String
  pub set_external_name : ObjectMeta → String → ObjectMeta
  pub set_condition : List Condition → Condition → List Condition

-- An external name that is set can be read back.
pub record IsLawful (p : Platform) : Type 0 where
  pub get-set_external_name :
      (m : ObjectMeta) (name : String) → p.get_external_name (p.set_external_name m name) ≡ name

-- The calls so far, latest first, and the resource that the handler was given.
pub record State : Type 0 where
  pub calls : List Call
  pub cr : VpcEndpoint

abbrev pub Go : Type 0 → Type 0
Go A = Exec State A

abbrev pub result_of : Option Fault → Result (Unit {0})
result_of none = ok tt
result_of (some e) = err e

-- Opening this opens the actions of `Exec` too.
unfoldable pub call : {A : Type 0} → Call → (List Call → Result A) → Go A
unfolding ◌>>=◌
call c answer s = (from_result (answer s.calls), record s { calls = c ∷ s.calls })

abbrev pub get_cr : Go VpcEndpoint
get_cr = gets (λ (t : State). t.cr)

abbrev pub set_cr : (VpcEndpoint → VpcEndpoint) → Go Unit
set_cr f = modify (λ (t : State). record t { cr = f t.cr })

module _ (p : Platform) where
  abbrev pub describe_endpoints : String → Go (List Ec2Endpoint)
  describe_endpoints id = call (ec2_describe id) (λ h. p.describe h id)

  abbrev pub create_endpoint : Ec2CreateInput → Go (Option Ec2Endpoint)
  create_endpoint input = call (ec2_create input) (λ h. p.create h input)

  abbrev pub delete_endpoints : String → Go (Unit {0})
  delete_endpoints id = call (ec2_delete id) (λ h. p.delete h id)

  abbrev pub modify_endpoint : String → List String → Go (Unit {0})
  modify_endpoint id groups = call (ec2_modify id groups) (λ h. p.modify h id groups)

  abbrev pub wait_five_seconds : Go (Unit {0})
  wait_five_seconds = call wait_interval (λ h. result_of (p.elapsed h))
