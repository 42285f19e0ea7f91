-- ===== src/Tests/Endpoint.antt =====
-- A cluster and an AWS account with one VPC endpoint, and what is proved of the VPC endpoint controller
-- and its client there.
use custome_provider_mongo_d.Vpc.Connect.Panics.{ReadsShortKey, connect_panics_iff}
use custome_provider_mongo_d.Prelude.{
  ◌≡◌, ◌↔◌, ◌+◌, ◌≤◌, ◌<◌, ℕ, refl, true, String, none, some, List, [], ◌∷◌, ◌⊎◌,
}
use custome_provider_mongo_d.Prelude.Lists.{length}
use custome_provider_mongo_d.Go.Fault.{Fault, foreign}
use custome_provider_mongo_d.Go.Exec.{Result, ok, err, done, panicked}
use custome_provider_mongo_d.Go.Json.{Document, json, obj, str, field, end, read_fields, equal_fold}
use custome_provider_mongo_d.Go.Struct.{decode, read_struct, into_field}
use custome_provider_mongo_d.Api.ProviderConfig.{ProviderConfig}
use custome_provider_mongo_d.Api.Connectivity.{VpcEndpoint}
use custome_provider_mongo_d.Organization.Observe.{absent}
use custome_provider_mongo_d.Vpc.Platform.{
  Platform, IsLawful, State, Ec2Endpoint, ec2_create, ec2_describe, track_usage,
  get_provider_config, call,
}
use custome_provider_mongo_d.Vpc.Client.{create_request, wait_for_vpc_endpoint_available}
use custome_provider_mongo_d.Vpc.Client.Wait.{
  BecomesAvailable, wait_for_vpc_endpoint_available_iff, wait_for_vpc_endpoint_available_bound,
}
use custome_provider_mongo_d.Vpc.Endpoint.{creation_params, observe, create}
use custome_provider_mongo_d.Vpc.Endpoint.Lifecycle.{observe_failed-create, observe-create}
use custome_provider_mongo_d.Vpc.Connect.{
  External, connect, from_document, read_aws_credentials, no_credentials, logged, value_of,
}
use custome_provider_mongo_d.Vpc.Connect.Unchecked.{HasNoKey, connect_nil_iff}
use custome_provider_mongo_d.Vpc.Connect.Usable.{IsClientOf, from_document_client_iff}
use custome_provider_mongo_d.Tests.Sample.{external_name}

abbrev vpc_endpoint : Ec2Endpoint
vpc_endpoint = record {
  vpc_endpoint_id = some "vpce-1";
  service_name = some "com.amazonaws.vpce";
  state = "available";
  endpoint_type = "Interface";
  subnet_ids = "subnet-1" ∷ [];
  groups = some "sg-1" ∷ [];
  network_interface_ids = "eni-1" ∷ [];
  dns_names = some "vpce-1.example.com" ∷ [];
}

abbrev aws_config : String → ProviderConfig
aws_config source = record {
  namespace = "crossplane-system";
  spec = record { credentials = record { source = source; secret_ref = none; aws = none } };
}

-- EC2's answer to a description is given.
abbrev account : Result (List Ec2Endpoint) → Platform
account answer = record {
  track = λ h. none;
  provider_config = λ h name. ok (aws_config "AWS");
  secret = λ h namespace name. ok [];
  load_config = λ h config. none;
  create = λ h input. ok (some vpc_endpoint);
  describe = λ h id. answer;
  delete = λ h id. ok tt;
  modify = λ h id groups. ok tt;
  elapsed = λ h. none;
  range_tags = λ h tags. tags;
  get_external_name = λ m. external_name m.annotations;
  set_external_name =
      λ m name. record m { annotations = ("crossplane.io/external-name", name) ∷ m.annotations };
  set_condition = λ l condition. condition ∷ l;
}

account-IsLawful : (answer : Result (List Ec2Endpoint)) → IsLawful (account answer)
account-IsLawful answer = record { get-set_external_name = λ m name. refl }

abbrev vpc_resource : List (String × String) → VpcEndpoint
vpc_resource annotations = record {
  metadata = record {
    name = "endpoint";
    annotations = annotations;
    finalizers = [];
    deletion_timestamp = none;
  };
  spec = record {
    provider_config_reference = some "default";
    for_provider = record {
      vpc_id = "vpc-1";
      service_name = "com.amazonaws.vpce";
      account_id = "";
      subnet_ids = "subnet-1" ∷ [];
      security_group_ids = "sg-1" ∷ [];
      region = "eu-central-1";
      ip_address_type = "";
      vpc_endpoint_type = "Interface";
      private_dns_enabled = some true;
      policy_document = "";
      tag_specifications = [];
    };
  };
  status = record {
    conditions = [];
    at_provider = record {
      state = "";
      vpc_endpoint_id = "";
      private_dns_name = "";
      network_interface_ids = [];
      network_interfaces = [];
      creation_timestamp = "";
    };
  };
}

abbrev fresh : State
fresh = record { calls = []; cr = vpc_resource [] }

abbrev named : State
named = record { calls = []; cr = vpc_resource (("crossplane.io/external-name", "vpce-1") ∷ []) }

abbrev throttled : Fault
throttled = foreign "RequestLimitExceeded"

abbrev failing : Platform
failing = account (err throttled)

abbrev working : Platform
working = account (ok (vpc_endpoint ∷ []))

abbrev unquoted : String → String
unquoted s = s

wait_for_vpc_endpoint_available_iff_example :
    ((wait_for_vpc_endpoint_available working "vpce-1" named).0 ≡ done tt)
    ↔ ((k : ℕ) × (k < 120) × BecomesAvailable working "vpce-1" k named)
wait_for_vpc_endpoint_available_iff_example =
    wait_for_vpc_endpoint_available_iff working "vpce-1" named

wait_for_vpc_endpoint_available_bound_example :
    length (wait_for_vpc_endpoint_available failing "vpce-1" named).1.calls ≤ 240 + 0
wait_for_vpc_endpoint_available_bound_example =
    wait_for_vpc_endpoint_available_bound failing "vpce-1" named

observe_failed-create_example :
    ((observe failing named).0 ≡ done absent)
    × ((create failing (observe failing named).1).1.calls
        ≡ ec2_create
            (create_request failing (observe failing named).1.calls (creation_params named.cr))
          ∷ (ec2_describe "vpce-1" ∷ []))
observe_failed-create_example = observe_failed-create failing named throttled refl refl refl refl

observe-create_example :
    ((observe working (create working fresh).1).0
      ≡ done (record { resource_exists = true; resource_up_to_date = true }))
    × ((observe working (create working fresh).1).1.cr.status.at_provider.state ≡ "available")
    × ((observe working (create working fresh).1).1.cr.status.at_provider.private_dns_name
        ≡ "vpce-1.example.com")
observe-create_example =
    observe-create working (account-IsLawful _) fresh vpc_endpoint refl refl refl vpc_endpoint []
      refl refl

connect_nil_iff_example :
    ((connect working unquoted named).0 ≡ done none)
    ↔ HasNoKey working unquoted
        (aws_config "AWS")
        (record named { calls = get_provider_config "default" ∷ (track_usage ∷ []) })
connect_nil_iff_example =
    connect_nil_iff working unquoted named "default" (aws_config "AWS") refl refl refl

abbrev aws_document : String → Document
aws_document id = json (
    obj (
      field "accessKeyId" (str id)
        (field "secretAccessKey" (str "secret") (field "region" (str "eu-central-1") end))))

abbrev key_client : External
key_client = record {
  config = record {
    region = "eu-central-1";
    access_key_id = "AKIA1";
    secret_access_key = "secret";
    session_token = "";
    endpoint_url = "https://ec2.eu-central-1.amazonaws.com";
  };
}

from_document_client_iff_example :
    ((from_document working unquoted "credentials" "aws" (some (aws_document "AKIA1")) named).0
      ≡ done (some key_client))
    ↔ IsClientOf working unquoted
        (decode (read_struct read_aws_credentials) no_credentials (aws_document "AKIA1"))
        key_client
        named
from_document_client_iff_example =
    from_document_client_iff working unquoted "credentials" "aws" (aws_document "AKIA1") key_client
      named

abbrev secret_config : ProviderConfig
secret_config = record {
  namespace = "default";
  spec = record {
    credentials = record {
      source = "Secret";
      secret_ref = some (record { name = "aws"; namespace = ""; key = "" });
      aws = none;
    };
  };
}

-- The secret holds an access key of two bytes.
abbrev short_keyed : Platform
short_keyed = record working {
  provider_config = λ h name. ok secret_config;
  secret = λ h namespace name.
      ok (("credentials", record { size = 20; document = aws_document "AK" }) ∷ []);
}

connect_panics_iff_example : ((connect short_keyed unquoted named).0 ≡ panicked) ↔ (
    (short_keyed.track [] ≡ none)
    × ((named.cr.spec.provider_config_reference ≡ none)
        ⊎ ReadsShortKey short_keyed unquoted named.cr.spec.provider_config_reference
            (record named { calls = track_usage ∷ [] })))
connect_panics_iff_example = connect_panics_iff short_keyed unquoted named

-- `Connect` panics there.
short_key_panics : (connect short_keyed unquoted named).0 ≡ panicked
unfolding connect logged into_field read_fields equal_fold call value_of
short_key_panics = refl
