-- ===== src/Mongo/Service.antt =====
-- The types of internal/clients/mongodb/client.go and its `Service` interface.
-- A `Service` holds what each call answers at one moment, with one pair of credentials.
use custome_provider_mongo_d.Prelude.{String, Bool, Option, List}
use custome_provider_mongo_d.Go.Exec.{Result}

pub record Credentials : Type 0 where
  pub public_key : String
  pub private_key : String

pub record Organization : Type 0 where
  pub id : String
  pub name : String
  pub org_owner_id : String
  pub is_deleted : Bool
  pub created : String

pub record OrganizationSettings : Type 0 where
  pub api_access_list_required : Bool
  pub gen_ai_features_enabled : Bool
  pub multi_factor_auth_required : Bool
  pub restrict_employee_access : Bool

pub record OrganizationSettingsUpdate : Type 0 where
  pub api_access_list_required : Option Bool
  pub gen_ai_features_enabled : Option Bool
  pub multi_factor_auth_required : Option Bool
  pub restrict_employee_access : Option Bool

pub record ApiKey : Type 0 where
  pub description : String
  pub roles : List String

pub record CreateOrganizationInput : Type 0 where
  pub name : String
  pub owner_id : String
  pub api_key : ApiKey

pub record UpdateOrganizationInput : Type 0 where
  pub id : String
  pub name : String

pub record ApiKeyPair : Type 0 where
  pub public_key : String
  pub private_key : String

pub record AddIpInput : Type 0 where
  pub ip : String
  pub comment : Option String

pub record IpAccessListEntry : Type 0 where
  pub ip_address : String
  pub cidr : String
  pub comment : String
  pub created : String

-- `none` is the nil organization that `GetOrganizationByName` returns beside a nil error.
pub record Service : Type 0 where
  pub create_organization : CreateOrganizationInput → Result (Organization × ApiKeyPair)
  pub get_organization : String → Result Organization
  pub get_organization_by_name : String → Result (Option Organization)
  pub get_organization_by_id : String → Result Organization
  pub update_organization : UpdateOrganizationInput → Result Organization
  pub delete_organization : String → Result (Unit {0})
  pub verify_organization_deletion : String → Result (Unit {0})
  pub add_ip_to_access_list : String → AddIpInput → Result (Unit {0})
  pub remove_ip_from_access_list : String → String → Result (Unit {0})
  pub get_ip_access_list : String → Result (List IpAccessListEntry)
  pub find_api_key_id : String → String → String → Result String
  pub add_ips_to_api_key_access_list : String → String → List AddIpInput → Result (Unit {0})
  pub remove_ip_from_api_key_access_list : String → String → String → Result (Unit {0})
  pub update_org_api_key_description : String → String → String → Result (Unit {0})
  pub update_org_api_key_roles : String → String → List String → Result (Unit {0})
  pub set_org_admin_api_ip_enforcement : String → Bool → Result (Unit {0})
  pub get_org_admin_api_ip_enforcement : String → Result Bool
  pub get_organization_settings : String → Result OrganizationSettings
  pub update_organization_settings :
      String → OrganizationSettingsUpdate → Result OrganizationSettings
