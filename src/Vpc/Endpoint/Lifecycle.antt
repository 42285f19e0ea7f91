-- ===== src/Vpc/Endpoint/Lifecycle.antt =====
-- The handlers of the VPC endpoint controller one after another.
use custome_provider_mongo_d.Prelude.{
  ◌≡◌, refl, String, true, false, some, List, [], ◌∷◌, ◌==◌, arith, ap, ◌∙◌,
}
use custome_provider_mongo_d.Go.Fault.{Fault}
use custome_provider_mongo_d.Go.Exec.{◌>>=◌, done, ok, err}
use custome_provider_mongo_d.Vpc.Platform.{
  Platform, IsLawful, State, ec2_create, ec2_describe, call, Ec2Endpoint,
}
use custome_provider_mongo_d.Vpc.Client.{
  first_dns_name, VpcEndpointOutput, CreateVpcEndpointInput, create_request, created_output,
  described_output, create_vpc_endpoint, get_vpc_endpoint_status, to_string,
}
use custome_provider_mongo_d.Vpc.Endpoint.{observe, create, creation_params}
use custome_provider_mongo_d.Organization.Observe.{absent}

-- The resource's external name.
abbrev pub name_of : Platform → State → String
name_of p s = p.get_external_name s.cr.metadata

module _ (p : Platform) where
  observe_failed :
      (s : State) (e : Fault)
      → (name_of p s == "") ≡ false
      → p.describe s.calls (name_of p s) ≡ err e
      → observe p s ≡ (done absent, record s { calls = ec2_describe (name_of p s) ∷ s.calls })
  unfolding observe get_vpc_endpoint_status call
  observe_failed s e named h = ground (arith, named, h)

  create_vpc_endpoint_request :
      (input : CreateVpcEndpointInput) (s : State)
      → (input.vpc_id == "") ≡ false
      → (input.service_name == "") ≡ false
      → (create_vpc_endpoint p input s).1.calls
        ≡ ec2_create (create_request p s.calls input) ∷ s.calls
  unfolding create_vpc_endpoint call
  create_vpc_endpoint_request input s vpc service = ground (arith, vpc, service)

  create_calls :
      (s : State) → (create p s).1.calls ≡ (create_vpc_endpoint p (creation_params s.cr) s).1.calls
  unfolding create ◌>>=◌
  create_calls s = ground arith

  -- Where the resource has an external name and EC2 fails to describe the endpoint for any reason,
  -- `Observe` reports without an error that the endpoint does not exist and leaves the resource as it
  -- is; and where the spec has a VPC and a service, the `Create` that follows asks EC2 for another
  -- endpoint.
  pub observe_failed-create :
      (s : State) (e : Fault)
      → (name_of p s == "") ≡ false
      → p.describe s.calls (name_of p s) ≡ err e
      → (s.cr.spec.for_provider.vpc_id == "") ≡ false
      → (s.cr.spec.for_provider.service_name == "") ≡ false
      → ((observe p s).0 ≡ done absent)
        × ((create p (observe p s).1).1.calls
            ≡ ec2_create (create_request p (observe p s).1.calls (creation_params s.cr))
              ∷ (ec2_describe (name_of p s) ∷ s.calls))
  unfolding creation_params
  observe_failed-create s e named h vpc service =
      rw (observe_failed s e named h)
        (refl, create_calls _ ∙ create_vpc_endpoint_request (creation_params s.cr) _ vpc service)

  observe_described :
      (s : State) (described : Ec2Endpoint) (others : List Ec2Endpoint)
      → (name_of p s == "") ≡ false
      → p.describe s.calls (name_of p s) ≡ ok (described ∷ others)
      → ((observe p s).0 ≡ done (record { resource_exists = true; resource_up_to_date = true }))
        × ((observe p s).1.cr.status.at_provider.state ≡ described.state)
        × ((observe p s).1.cr.status.at_provider.private_dns_name
            ≡ first_dns_name described.dns_names)
  unfolding observe get_vpc_endpoint_status call described_output
  observe_described s described others named h = ground (arith, named, h)

  create_vpc_endpoint_created :
      (input : CreateVpcEndpointInput) (s : State) (endpoint : Ec2Endpoint)
      → (input.vpc_id == "") ≡ false
      → (input.service_name == "") ≡ false
      → p.create s.calls (create_request p s.calls input) ≡ ok (some endpoint)
      → create_vpc_endpoint p input s ≡ (
        done (created_output endpoint),
        record s { calls = ec2_create (create_request p s.calls input) ∷ s.calls },
      )
  unfolding create_vpc_endpoint call
  create_vpc_endpoint_created input s endpoint vpc service h = ground (arith, vpc, service, h)

  create_created :
      (s : State) (out : VpcEndpointOutput) (t : State)
      → create_vpc_endpoint p (creation_params s.cr) s ≡ (done out, t)
      → ((create p s).0
          ≡ done (("vpcEndpointId", out.vpc_endpoint_id) ∷ ("dnsName", out.private_dns_name) ∷ []))
        × ((create p s).1.cr.metadata ≡ p.set_external_name t.cr.metadata out.vpc_endpoint_id)
        × ((create p s).1.calls ≡ t.calls)
  unfolding create ◌>>=◌
  create_created s out t h = rw h (refl, refl, refl)

  module _ (lawful : IsLawful p) (s : State) (endpoint : Ec2Endpoint)
      (vpc : (s.cr.spec.for_provider.vpc_id == "") ≡ false)
      (service : (s.cr.spec.for_provider.service_name == "") ≡ false)
      (h : p.create s.calls (create_request p s.calls (creation_params s.cr))
        ≡ ok (some endpoint)) where
    -- Where the spec has a VPC and a service, a name that is set can be read back, and EC2 answers the
    -- creation with an endpoint, `Create` succeeds, the endpoint's id is the resource's external name, and
    -- the published details are the id and an empty DNS name.
    create_details :
        ((create p s).0
          ≡ done (("vpcEndpointId", to_string endpoint.vpc_endpoint_id) ∷ ("dnsName", "") ∷ []))
        × (name_of p (create p s).1 ≡ to_string endpoint.vpc_endpoint_id)
    unfolding creation_params created_output
    create_details =
        let (details, named, calls) =
          create_created s _ _
            (create_vpc_endpoint_created (creation_params s.cr) s endpoint vpc service h) in
        (details, ap p.get_external_name named ∙ lawful.get-set_external_name _ _)

    -- Where the spec has a VPC and a service, a name that is set can be read back, EC2 answers the creation
    -- with an endpoint whose id is not empty, and EC2 then describes the endpoint of this id, `Observe`
    -- after `Create` reports that the endpoint exists, and the status shows the described state and DNS name.
    pub observe-create :
        (described : Ec2Endpoint) (others : List Ec2Endpoint)
        → (to_string endpoint.vpc_endpoint_id == "") ≡ false
        → p.describe (create p s).1.calls (to_string endpoint.vpc_endpoint_id)
          ≡ ok (described ∷ others)
        → ((observe p (create p s).1).0
            ≡ done (record { resource_exists = true; resource_up_to_date = true }))
          × ((observe p (create p s).1).1.cr.status.at_provider.state ≡ described.state)
          × ((observe p (create p s).1).1.cr.status.at_provider.private_dns_name
              ≡ first_dns_name described.dns_names)
    observe-create described others named d =
        observe_described (create p s).1 described others (rw (create_details.1) named)
          (rw (create_details.1) d)
