-- ===== src/Api/Connectivity.antt =====
-- apis/connectivity/v1alpha1/vpcendpoint_types.go: the spec and the status of a VPCEndpoint.
use custome_provider_mongo_d.Prelude.{String, Bool, Option, List}
use custome_provider_mongo_d.Api.Organization.{ObjectMeta, Condition}

pub record VpcEndpointParameters : Type 0 where
  pub vpc_id : String
  pub service_name : String
  pub account_id : String
  pub subnet_ids : List String
  pub security_group_ids : List String
  pub region : String
  pub ip_address_type : String
  pub vpc_endpoint_type : String
  pub private_dns_enabled : Option Bool
  pub policy_document : String
  pub tag_specifications : List (String × String)

pub record NetworkInterfaceObs : Type 0 where
  pub network_interface_id : String
  pub subnet_id : String
  pub private_ip : String
  pub status : String

pub record VpcEndpointObservation : Type 0 where
  pub state : String
  pub vpc_endpoint_id : String
  pub private_dns_name : String
  pub network_interface_ids : List String
  pub network_interfaces : List NetworkInterfaceObs
  pub creation_timestamp : String

pub record VpcEndpointSpec : Type 0 where
  pub provider_config_reference : Option String
  pub for_provider : VpcEndpointParameters

pub record VpcEndpointStatus : Type 0 where
  pub conditions : List Condition
  pub at_provider : VpcEndpointObservation

pub record VpcEndpoint : Type 0 where
  pub metadata : ObjectMeta
  pub spec : VpcEndpointSpec
  pub status : VpcEndpointStatus
