-- ===== src/Vpc/Client.antt =====
-- The methods of `VPCEndpointClient` in internal/clients/connectivity/connectivity.go.
pub mod Wait
use custome_provider_mongo_d.Prelude.{
  ℕ, zero, suc, String, ◌<>◌, Bool, true, ◌&&◌, ◌||◌, Option, none, some, List, [], ◌∷◌, map, ◌==◌,
  if◌then◌else◌,
}
use custome_provider_mongo_d.Go.Fault.{plain}
use custome_provider_mongo_d.Go.Exec.{pure, throw, panic, gets, wrap, ◌>>=◌, ◌>>◌}
use custome_provider_mongo_d.Vpc.Platform.{
  Platform, State, Go, Call, Ec2CreateInput, Ec2Endpoint, describe_endpoints, create_endpoint,
  delete_endpoints, modify_endpoint, wait_five_seconds,
}

-- `AWSCredentials`
pub record AwsCredentials : Type 0 where
  pub access_key_id : String
  pub secret_access_key : String
  pub session_token : String
  pub region : String

pub record CreateVpcEndpointInput : Type 0 where
  pub vpc_id : String
  pub service_name : String
  pub subnet_ids : List String
  pub security_group_ids : List String
  pub vpc_endpoint_type : String
  pub ip_address_type : String
  pub policy_document : String
  pub private_dns_enabled : Bool
  pub tag_specifications : List (String × String)

pub record NetworkInterface : Type 0 where
  pub network_interface_id : String
  pub subnet_id : String
  pub private_ip : String
  pub status : String

pub record VpcEndpointOutput : Type 0 where
  pub vpc_endpoint_id : String
  pub service_name : String
  pub state : String
  pub vpc_endpoint_type : String
  pub subnet_ids : List String
  pub group_ids : List String
  pub private_dns_name : String
  pub network_interfaces : List NetworkInterface

-- `aws.ToString`
abbrev pub to_string : Option String → String
to_string none = ""
to_string (some s) = s

abbrev pub given : String → Option String
given s = if s == "" then none else some s

abbrev pub extract_security_group_ids : List (Option String) → List String
extract_security_group_ids groups = map to_string groups

abbrev pub no_interface : NetworkInterface
no_interface = record { network_interface_id = ""; subnet_id = ""; private_ip = ""; status = "" }

abbrev pub interface_of : String → NetworkInterface
interface_of id = record no_interface { network_interface_id = id }

abbrev pub first_dns_name : List (Option String) → String
first_dns_name [] = ""
first_dns_name (name ∷ names) = to_string name

-- The fields that both a creation and a description give.
abbrev pub common_output : Ec2Endpoint → VpcEndpointOutput
common_output e = record {
  vpc_endpoint_id = to_string e.vpc_endpoint_id;
  service_name = to_string e.service_name;
  state = e.state;
  vpc_endpoint_type = e.endpoint_type;
  subnet_ids = e.subnet_ids;
  group_ids = extract_security_group_ids e.groups;
  private_dns_name = "";
  network_interfaces = [];
}

-- After a creation the interfaces are as many zero values as there are ids.
unfoldable pub created_output : Ec2Endpoint → VpcEndpointOutput
created_output e = record (common_output e) {
  network_interfaces = map (λ id. no_interface) e.network_interface_ids;
}

unfoldable pub described_output : Ec2Endpoint → VpcEndpointOutput
described_output e = record (common_output e) {
  private_dns_name = first_dns_name e.dns_names;
  network_interfaces = map interface_of e.network_interface_ids;
}

module _ (p : Platform) where
  abbrev pub build_tag_specifications :
      List Call → List (String × String) → Option (List (String × String))
  build_tag_specifications h [] = none
  build_tag_specifications h (t ∷ tags) = some (p.range_tags h (t ∷ tags))

  unfoldable pub create_request : List Call → CreateVpcEndpointInput → Ec2CreateInput
  create_request h input = record {
    vpc_id = input.vpc_id;
    service_name = input.service_name;
    endpoint_type = (if input.vpc_endpoint_type == "Gateway" then "Gateway" else "Interface");
    subnet_ids = input.subnet_ids;
    security_group_ids = input.security_group_ids;
    tags = build_tag_specifications h input.tag_specifications;
    policy_document = given input.policy_document;
    private_dns_enabled =
        (if input.vpc_endpoint_type == "Interface" && input.private_dns_enabled
          then some true
          else none);
  }

  -- `result.VpcEndpoint` is a pointer that is not tested.
  abbrev pub created : Option Ec2Endpoint → Go VpcEndpointOutput
  created none = panic
  created (some e) = pure (created_output e)

  unfoldable pub create_vpc_endpoint : CreateVpcEndpointInput → Go VpcEndpointOutput
  create_vpc_endpoint input =
      if input.vpc_id == "" || input.service_name == ""
      then throw (plain "VPC ID and Service Name are required")
      else (do
        request ← gets (λ (s : State). create_request s.calls input)
        endpoint ← wrap "failed to create VPC endpoint" (create_endpoint p request)
        created endpoint)

  abbrev pub first_endpoint : String → List Ec2Endpoint → Go VpcEndpointOutput
  first_endpoint id [] = throw (plain ("VPC endpoint not found: " <> id))
  first_endpoint id (e ∷ endpoints) = pure (described_output e)

  unfoldable pub get_vpc_endpoint_status : String → Go VpcEndpointOutput
  get_vpc_endpoint_status id = if id == "" then throw (plain "VPC endpoint ID is required") else (do
    endpoints ← wrap "failed to describe VPC endpoint" (describe_endpoints p id)
    first_endpoint id endpoints)

  unfoldable pub delete_vpc_endpoint : String → Go (Unit {0})
  delete_vpc_endpoint id =
      if id == ""
      then throw (plain "VPC endpoint ID is required")
      else wrap "failed to delete VPC endpoint" (delete_endpoints p id)

  unfoldable pub modify_vpc_endpoint_service_configuration : String → List String → Go (Unit {0})
  modify_vpc_endpoint_service_configuration id groups =
      if id == ""
      then throw (plain "VPC endpoint ID is required")
      else wrap "failed to modify VPC endpoint" (modify_endpoint p id groups)

  abbrev pub max_attempts : ℕ
  max_attempts = 120

  -- One round's test of the state; `more` is what follows it.
  abbrev pub after_description : Go (Unit {0}) → VpcEndpointOutput → Go (Unit {0})
  after_description more endpoint =
      if endpoint.state == "available"
      then pure tt
      else if endpoint.state == "failed" || endpoint.state == "deleted"
      then throw (plain ("VPC endpoint entered terminal state: " <> endpoint.state))
      else more

  -- The loop, by the rounds that are left.
  unfoldable pub wait_loop : String → ℕ → Go (Unit {0})
  wait_loop id zero = throw (plain "timeout waiting for VPC endpoint to become available")
  wait_loop id (suc left) = do
    endpoint ← get_vpc_endpoint_status id
    after_description (do wait_five_seconds p; wait_loop id left) endpoint

  unfoldable pub wait_for_vpc_endpoint_available : String → Go (Unit {0})
  wait_for_vpc_endpoint_available id = wait_loop id max_attempts
