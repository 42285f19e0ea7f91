-- ===== src/Mongo/Client.antt =====
-- The methods of `client` in internal/clients/mongodb/client.go, each of at most one request, and the
-- `Service` that they make up.
pub mod Listed
pub mod Answers
use custome_provider_mongo_d.Prelude.{
  String, ◌<>◌, Bool, false, Option, none, some, List, [], ◌==◌, if◌then◌else◌, ◌||◌,
}
use custome_provider_mongo_d.Go.Fault.{plain}
use custome_provider_mongo_d.Go.Exec.{Result, ok, err}
use custome_provider_mongo_d.Go.Json.{
  Json, str, bool, arr, obj, null, Fields, end, field, Decoded, read_string, read_bool,
}
use custome_provider_mongo_d.Go.Struct.{into_field, read_struct, strings}
use custome_provider_mongo_d.Go.Url.{path_escape, query_escape}
use custome_provider_mongo_d.Mongo.Service.{
  Organization, OrganizationSettings, OrganizationSettingsUpdate, ApiKeyPair,
  CreateOrganizationInput, UpdateOrganizationInput, AddIpInput, IpAccessListEntry, Service,
}
use custome_provider_mongo_d.Mongo.Http.{
  Transport, Target, no_result, struct_result, make_request, make_v2_request, wrap_result,
  atlas_v2_settings_accept,
}
use custome_provider_mongo_d.Mongo.Payload.{
  read_results, no_organization, no_key, read_created_organization, read_created, creation_document,
  created_organization, read_settings, no_settings, settings_document, first_found,
  still_exists_error, list_or_empty, enforced_or_not, read_key_meta, matching_id, address_documents,
  address_document, no_entry, read_access_list,
}

abbrev org_path : String → String
org_path id = "/orgs/" <> id

abbrev key_path : String → String → String
key_path org_id key_id = "/orgs/" <> (path_escape org_id <> ("/apiKeys/" <> path_escape key_id))

abbrev settings_path : String → String
settings_path org_id = "/orgs/" <> (path_escape org_id <> "/settings")

module _ (t : Transport) where
  -- A `time.Time` field: a text that is a time.
  abbrev pub read_time : Json → Decoded String → Decoded String
  read_time (str s) d =
      if t.is_time s then record d { value = s } else record d { well_typed = false }
  read_time null d = d
  read_time _ d = record d { well_typed = false }

  abbrev pub read_organization : Fields → Decoded Organization → Decoded Organization
  read_organization fs d =
      into_field read_time "created" (λ (o : Organization). o.created)
        (λ o v. record o { created = v }) fs
        (into_field read_string "orgOwnerId" (λ (o : Organization). o.org_owner_id)
          (λ o v. record o { org_owner_id = v }) fs (read_created_organization fs d))

  abbrev pub organization_result : Target Organization
  organization_result = struct_result (read_struct read_organization) no_organization

  abbrev pub organizations_result : Target (List Organization)
  organizations_result =
      struct_result (read_results (read_struct read_organization) no_organization) []

  unfoldable pub create_organization : CreateOrganizationInput → Result (Organization × ApiKeyPair)
  create_organization input =
      if input.name == ""
      then err (plain "organization name cannot be empty")
      else if input.owner_id == ""
      then err (plain "organization ownerID cannot be empty")
      else created_organization input (
          make_request
            (struct_result (read_struct read_created)
              (record { organization = no_organization; api_key = no_key }))
            t "POST" "/orgs" (some (creation_document input)))

  unfoldable pub get_organization : String → Result Organization
  get_organization id = make_request organization_result t "GET" (org_path id) none

  unfoldable pub get_organization_by_name : String → Result (Option Organization)
  get_organization_by_name name =
      if name == ""
      then err (plain "organization name cannot be empty")
      else first_found
          (make_request organizations_result t "GET" ("/orgs?name=" <> query_escape name) none)

  unfoldable pub get_organization_by_id : String → Result Organization
  get_organization_by_id id = get_organization id

  unfoldable pub update_organization : UpdateOrganizationInput → Result Organization
  update_organization input =
      make_request organization_result t "PATCH" (org_path input.id)
        (some (obj (if input.name == "" then end else field "name" (str input.name) end)))

  unfoldable pub delete_organization : String → Result (Unit {0})
  delete_organization id =
      if id == ""
      then err (plain "organization id cannot be empty")
      else make_request no_result t "DELETE" (org_path id) none

  unfoldable pub verify_organization_deletion : String → Result (Unit {0})
  verify_organization_deletion id =
      if id == ""
      then err (plain "organization id cannot be empty")
      else still_exists_error id (make_request organization_result t "GET" (org_path id) none)

  unfoldable pub add_ip_to_access_list : String → AddIpInput → Result (Unit {0})
  add_ip_to_access_list org_id input =
      if org_id == ""
      then err (plain "organization ID cannot be empty")
      else if input.ip == ""
      then err (plain "IP address cannot be empty")
      else make_request no_result t "POST" ("/orgs/" <> (org_id <> "/accessList"))
          (some (address_document input))

  unfoldable pub remove_ip_from_access_list : String → String → Result (Unit {0})
  remove_ip_from_access_list org_id ip =
      if org_id == ""
      then err (plain "organization ID cannot be empty")
      else if ip == ""
      then err (plain "IP address cannot be empty")
      else make_request no_result t "DELETE" ("/orgs/" <> (org_id <> ("/accessList/" <> ip))) none

  abbrev pub read_entry : Fields → Decoded IpAccessListEntry → Decoded IpAccessListEntry
  read_entry fs d =
      into_field read_time "created" (λ (e : IpAccessListEntry). e.created)
        (λ e v. record e { created = v }) fs
        (into_field read_string "comment" (λ (e : IpAccessListEntry). e.comment)
          (λ e v. record e { comment = v }) fs
          (into_field read_string "cidr" (λ (e : IpAccessListEntry). e.cidr)
            (λ e v. record e { cidr = v }) fs
            (into_field read_string "ipAddress" (λ (e : IpAccessListEntry). e.ip_address)
              (λ e v. record e { ip_address = v }) fs d)))

  unfoldable pub get_ip_access_list : String → Result (List IpAccessListEntry)
  get_ip_access_list org_id =
      if org_id == ""
      then err (plain "organization ID cannot be empty")
      else list_or_empty (
          make_request (struct_result (read_access_list (read_struct read_entry) no_entry) []) t
            "GET" ("/orgs/" <> (org_id <> "/accessList")) none)

  unfoldable pub set_org_admin_api_ip_enforcement : String → Bool → Result (Unit {0})
  set_org_admin_api_ip_enforcement org_id required =
      if org_id == ""
      then err (plain "organization id cannot be empty")
      else make_v2_request no_result t "PATCH" (settings_path org_id)
          (some (obj (field "apiAccessListRequired" (bool required) end))) atlas_v2_settings_accept

  unfoldable pub get_org_admin_api_ip_enforcement : String → Result Bool
  get_org_admin_api_ip_enforcement org_id =
      if org_id == ""
      then err (plain "organization id cannot be empty")
      else enforced_or_not (
          make_v2_request
            (struct_result
              (read_struct (into_field read_bool "apiAccessListRequired" (λ b. b) (λ b v. v)))
              false)
            t "GET" (settings_path org_id) none atlas_v2_settings_accept)

  unfoldable pub get_organization_settings : String → Result OrganizationSettings
  get_organization_settings org_id =
      if org_id == ""
      then err (plain "organization id cannot be empty")
      else wrap_result "failed to get organization settings" (
          make_v2_request (struct_result (read_struct read_settings) no_settings) t "GET"
            (settings_path org_id) none atlas_v2_settings_accept)

  unfoldable pub update_organization_settings :
      String → OrganizationSettingsUpdate → Result OrganizationSettings
  update_organization_settings org_id update =
      if org_id == ""
      then err (plain "organization id cannot be empty")
      else wrap_result "failed to update organization settings" (
          make_v2_request (struct_result (read_struct read_settings) no_settings) t "PATCH"
            (settings_path org_id) (some (settings_document update)) atlas_v2_settings_accept)

  -- The third argument, a description, is ignored.
  unfoldable pub find_api_key_id : String → String → String → Result String
  find_api_key_id org_id public_key description =
      if org_id == "" || public_key == ""
      then ok ""
      else matching_id public_key (
          make_request
            (struct_result
              (read_results (read_struct read_key_meta) (record { id = ""; public_key = "" })) [])
            t "GET" ("/orgs/" <> (path_escape org_id <> "/apiKeys")) none)

  unfoldable pub add_ips_to_api_key_access_list :
      String → String → List AddIpInput → Result (Unit {0})
  add_ips_to_api_key_access_list org_id key_id inputs =
      if org_id == "" || key_id == ""
      then err (plain "orgID and apiKeyID cannot be empty")
      else make_request no_result t "POST" (key_path org_id key_id <> "/accessList")
          (some (arr (address_documents inputs)))

  unfoldable pub remove_ip_from_api_key_access_list : String → String → String → Result (Unit {0})
  remove_ip_from_api_key_access_list org_id key_id ip =
      if org_id == "" || (key_id == "" || ip == "")
      then err (plain "orgID, apiKeyID and ip cannot be empty")
      else make_request no_result t "DELETE"
          (key_path org_id key_id <> ("/accessList/" <> path_escape ip)) none

  unfoldable pub update_org_api_key_description : String → String → String → Result (Unit {0})
  update_org_api_key_description org_id key_id description =
      if org_id == "" || key_id == ""
      then err (plain "orgID and apiKeyID cannot be empty")
      else make_request no_result t "PATCH" (key_path org_id key_id)
          (some (obj (field "desc" (str description) end)))

  unfoldable pub update_org_api_key_roles : String → String → List String → Result (Unit {0})
  update_org_api_key_roles org_id key_id roles =
      if org_id == "" || key_id == ""
      then err (plain "orgID and apiKeyID cannot be empty")
      else make_request no_result t "PATCH" (key_path org_id key_id)
          (some (obj (field "roles" (arr (strings roles)) end)))

-- The client as the interface that the controllers use.
unfoldable pub new_service : Transport → Service
new_service t = record {
  create_organization = create_organization t;
  get_organization = get_organization t;
  get_organization_by_name = get_organization_by_name t;
  get_organization_by_id = get_organization_by_id t;
  update_organization = update_organization t;
  delete_organization = delete_organization t;
  verify_organization_deletion = verify_organization_deletion t;
  add_ip_to_access_list = add_ip_to_access_list t;
  remove_ip_from_access_list = remove_ip_from_access_list t;
  get_ip_access_list = get_ip_access_list t;
  find_api_key_id = find_api_key_id t;
  add_ips_to_api_key_access_list = add_ips_to_api_key_access_list t;
  remove_ip_from_api_key_access_list = remove_ip_from_api_key_access_list t;
  update_org_api_key_description = update_org_api_key_description t;
  update_org_api_key_roles = update_org_api_key_roles t;
  set_org_admin_api_ip_enforcement = set_org_admin_api_ip_enforcement t;
  get_org_admin_api_ip_enforcement = get_org_admin_api_ip_enforcement t;
  get_organization_settings = get_organization_settings t;
  update_organization_settings = update_organization_settings t;
}
