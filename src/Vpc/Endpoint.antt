-- ===== src/Vpc/Endpoint.antt =====
-- The handlers of internal/controller/vpcendpoint/vpcendpoint.go.
pub mod Lifecycle
use custome_provider_mongo_d.Prelude.{
  String, Bool, true, false, Option, none, some, List, [], ◌∷◌, map, ◌==◌, if◌then◌else◌,
}
use custome_provider_mongo_d.Go.Fault.{plain}
use custome_provider_mongo_d.Go.Exec.{Result, ok, err, pure, throw, wrap, attempt, ◌>>=◌, ◌>>◌}
use custome_provider_mongo_d.Api.Organization.{Condition, available, creating, unavailable}
use custome_provider_mongo_d.Api.Connectivity.{VpcEndpoint, VpcEndpointObservation}
use custome_provider_mongo_d.Organization.Observe.{Observation, absent}
use custome_provider_mongo_d.Organization.Create.{ConnectionDetails}
use custome_provider_mongo_d.Vpc.Platform.{Platform, Go, get_cr, set_cr}
use custome_provider_mongo_d.Vpc.Client.{
  CreateVpcEndpointInput, VpcEndpointOutput, NetworkInterface, create_vpc_endpoint,
  get_vpc_endpoint_status, delete_vpc_endpoint,
}

unfoldable pub extract_eni_ids : List NetworkInterface → List String
extract_eni_ids enis = map (λ (e : NetworkInterface). e.network_interface_id) enis

-- The condition for a state of the endpoint.
unfoldable pub condition_of : String → Condition
condition_of state =
    if state == "available"
    then available
    else if state == "pending"
    then creating
    else unavailable state

abbrev pub set_at_provider : (VpcEndpointObservation → VpcEndpointObservation) → Go Unit
set_at_provider f =
    set_cr (λ cr. record cr { status = record cr.status { at_provider = f cr.status.at_provider } })

abbrev pub private_dns : Option Bool → Bool
private_dns none = false
private_dns (some enabled) = enabled

unfoldable pub creation_params : VpcEndpoint → CreateVpcEndpointInput
creation_params cr = record {
  vpc_id = cr.spec.for_provider.vpc_id;
  service_name = cr.spec.for_provider.service_name;
  subnet_ids = cr.spec.for_provider.subnet_ids;
  security_group_ids = cr.spec.for_provider.security_group_ids;
  vpc_endpoint_type = cr.spec.for_provider.vpc_endpoint_type;
  ip_address_type = cr.spec.for_provider.ip_address_type;
  policy_document = cr.spec.for_provider.policy_document;
  private_dns_enabled = private_dns cr.spec.for_provider.private_dns_enabled;
  tag_specifications = cr.spec.for_provider.tag_specifications;
}

module _ (p : Platform) where
  abbrev pub set_conditions : Condition → Go Unit
  set_conditions condition = set_cr (λ cr. record cr {
    status = record cr.status { conditions = p.set_condition cr.status.conditions condition };
  })

  -- Any error of the description counts as an endpoint that does not exist.
  abbrev pub observe_status : Result VpcEndpointOutput → Go Observation
  observe_status (err e) = pure absent
  observe_status (ok endpoint) = do
    set_at_provider (λ o. record o {
      state = endpoint.state;
      private_dns_name = endpoint.private_dns_name;
      network_interface_ids = extract_eni_ids endpoint.network_interfaces;
    })
    set_conditions (condition_of endpoint.state)
    pure (record { resource_exists = true; resource_up_to_date = true })

  abbrev pub observe_named : String → Go Observation
  observe_named id = do endpoint ← attempt (get_vpc_endpoint_status p id); observe_status endpoint

  unfoldable pub observe : Go Observation
  observe = do
    cr ← get_cr
    if p.get_external_name cr.metadata == ""
        then pure absent
        else observe_named (p.get_external_name cr.metadata)

  unfoldable pub create : Go ConnectionDetails
  create = do
    cr ← get_cr
    res ← wrap "cannot create VPC endpoint" (create_vpc_endpoint p (creation_params cr))
    set_cr (λ cr. record cr { metadata = p.set_external_name cr.metadata res.vpc_endpoint_id })
    set_at_provider (λ o. record o {
      vpc_endpoint_id = res.vpc_endpoint_id;
      state = res.state;
      private_dns_name = res.private_dns_name;
    })
    pure (("vpcEndpointId", res.vpc_endpoint_id) ∷ ("dnsName", res.private_dns_name) ∷ [])

  unfoldable pub update : Go Unit
  update = throw (plain "update is not supported for VPC endpoints")

  unfoldable pub delete : Go (Unit {0})
  delete = do
    cr ← get_cr
    if p.get_external_name cr.metadata == ""
        then pure tt
        else delete_vpc_endpoint p (p.get_external_name cr.metadata)
