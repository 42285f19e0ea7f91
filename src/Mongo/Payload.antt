-- ===== src/Mongo/Payload.antt =====
-- The documents that the methods of internal/clients/mongodb/client.go send, and how they read the
-- answers.
use custome_provider_mongo_d.Prelude.{
  String, ◌<>◌, Bool, false, Option, none, some, List, [], ◌∷◌, ◌==◌, if◌then◌else◌, true,
}
use custome_provider_mongo_d.Go.Fault.{plain, wrapped, is_not_found_error}
use custome_provider_mongo_d.Go.Exec.{Result, ok, err}
use custome_provider_mongo_d.Go.Json.{
  Json, str, bool, arr, obj, null, Items, nil, cons, Fields, end, field, Decoded, read_string,
  read_bool,
}
use custome_provider_mongo_d.Go.Struct.{into_field, read_struct, read_slice, strings}
use custome_provider_mongo_d.Mongo.Service.{
  Organization, OrganizationSettings, OrganizationSettingsUpdate, ApiKey, ApiKeyPair,
  CreateOrganizationInput, AddIpInput, IpAccessListEntry,
}

-- `results` of a list answer, as the only field that is read.
abbrev pub read_results :
    {A : Type 0} → (Json → Decoded A → Decoded A) → A → Json → Decoded (List A) → Decoded (List A)
read_results read zero_value =
    read_struct (into_field (read_slice read zero_value) "results" (λ l. l) (λ l v. v))

-- The part of the answer to a creation that is read.
pub record Created : Type 0 where
  pub organization : Organization
  pub api_key : ApiKeyPair

abbrev pub no_organization : Organization
no_organization = record { id = ""; name = ""; org_owner_id = ""; is_deleted = false; created = "" }

abbrev pub no_key : ApiKeyPair
no_key = record { public_key = ""; private_key = "" }

abbrev pub read_created_organization : Fields → Decoded Organization → Decoded Organization
read_created_organization fs d =
    into_field read_string "name" (λ (o : Organization). o.name) (λ o v. record o { name = v }) fs
      (into_field read_bool "isDeleted" (λ (o : Organization). o.is_deleted)
        (λ o v. record o { is_deleted = v }) fs
        (into_field read_string "id" (λ (o : Organization). o.id) (λ o v. record o { id = v }) fs
          d))

abbrev pub read_key : Fields → Decoded ApiKeyPair → Decoded ApiKeyPair
read_key fs d =
    into_field read_string "privateKey" (λ (k : ApiKeyPair). k.private_key)
      (λ k v. record k { private_key = v }) fs
      (into_field read_string "publicKey" (λ (k : ApiKeyPair). k.public_key)
        (λ k v. record k { public_key = v }) fs d)

abbrev pub read_created : Fields → Decoded Created → Decoded Created
read_created fs d =
    into_field (read_struct read_key) "apiKey" (λ (c : Created). c.api_key)
      (λ c v. record c { api_key = v }) fs
      (into_field (read_struct read_created_organization) "organization"
        (λ (c : Created). c.organization) (λ c v. record c { organization = v }) fs d)

abbrev pub key_document : ApiKey → Json
key_document key =
    obj (field "desc" (str key.description) (field "roles" (arr (strings key.roles)) end))

-- The keys of a map are written in alphabetical order.
abbrev pub creation_document : CreateOrganizationInput → Json
creation_document input = obj (
    field "apiKey" (key_document input.api_key)
      (field "name" (str input.name) (field "orgOwnerId" (str input.owner_id) end)))

abbrev pub created_organization :
    CreateOrganizationInput → Result Created → Result (Organization × ApiKeyPair)
created_organization input (err e) = err (wrapped "cannot create organization" e)
created_organization input (ok c) =
    ok (record c.organization { org_owner_id = input.owner_id }, c.api_key)

abbrev pub read_settings : Fields → Decoded OrganizationSettings → Decoded OrganizationSettings
read_settings fs d =
    into_field read_bool "restrictEmployeeAccess"
      (λ (s : OrganizationSettings). s.restrict_employee_access)
      (λ s v. record s { restrict_employee_access = v }) fs
      (into_field read_bool "multiFactorAuthRequired"
        (λ (s : OrganizationSettings). s.multi_factor_auth_required)
        (λ s v. record s { multi_factor_auth_required = v }) fs
        (into_field read_bool "genAIFeaturesEnabled"
          (λ (s : OrganizationSettings). s.gen_ai_features_enabled)
          (λ s v. record s { gen_ai_features_enabled = v }) fs
          (into_field read_bool "apiAccessListRequired"
            (λ (s : OrganizationSettings). s.api_access_list_required)
            (λ s v. record s { api_access_list_required = v }) fs d)))

abbrev pub no_settings : OrganizationSettings
no_settings = record {
  api_access_list_required = false;
  gen_ai_features_enabled = false;
  multi_factor_auth_required = false;
  restrict_employee_access = false;
}

-- A pointer field with `omitempty`.
abbrev pub optional_bool : String → Option Bool → Fields → Fields
optional_bool key none fs = fs
optional_bool key (some b) fs = field key (bool b) fs

abbrev pub settings_document : OrganizationSettingsUpdate → Json
settings_document u = obj (
    optional_bool "apiAccessListRequired" u.api_access_list_required (
      optional_bool "genAIFeaturesEnabled" u.gen_ai_features_enabled (
        optional_bool "multiFactorAuthRequired" u.multi_factor_auth_required
          (optional_bool "restrictEmployeeAccess" u.restrict_employee_access end))))

-- The answer of `GetOrganizationByName`.
abbrev pub first_found : Result (List Organization) → Result (Option Organization)
first_found (ok []) = ok none
first_found (ok (org ∷ orgs)) = ok (some org)
first_found (err e) = if is_not_found_error (some e) then ok none else err e

abbrev pub still_exists_error : String → Result Organization → Result (Unit {0})
still_exists_error id (ok org) = err (plain ("organization " <> (id <> " still exists")))
still_exists_error id (err e) =
    if is_not_found_error (some e)
    then ok tt
    else err (wrapped "failed to verify organization deletion" e)

abbrev pub list_or_empty : Result (List IpAccessListEntry) → Result (List IpAccessListEntry)
list_or_empty (ok l) = ok l
list_or_empty (err e) =
    if is_not_found_error (some e) then ok [] else err (wrapped "failed to get IP access list" e)

abbrev pub enforced_or_not : Result Bool → Result Bool
enforced_or_not (ok required) = ok required
enforced_or_not (err e) = if is_not_found_error (some e) then ok false else err e

-- A key's id and its public key, in the answer to `FindAPIKeyID`.
pub record ApiKeyMeta : Type 0 where
  pub id : String
  pub public_key : String

abbrev pub read_key_meta : Fields → Decoded ApiKeyMeta → Decoded ApiKeyMeta
read_key_meta fs d =
    into_field read_string "publicKey" (λ (k : ApiKeyMeta). k.public_key)
      (λ k v. record k { public_key = v }) fs
      (into_field read_string "id" (λ (k : ApiKeyMeta). k.id) (λ k v. record k { id = v }) fs d)

unfoldable pub matching_key : String → List ApiKeyMeta → String
matching_key public_key [] = ""
matching_key public_key (k ∷ ks) =
    if k.public_key == public_key then k.id else matching_key public_key ks

abbrev pub matching_id : String → Result (List ApiKeyMeta) → Result String
matching_id public_key (ok ks) = ok (matching_key public_key ks)
matching_id public_key (err e) = err e

abbrev pub address_documents : List AddIpInput → Items
address_documents [] = nil
address_documents (i ∷ inputs) =
    cons (obj (field "ipAddress" (str i.ip) end)) (address_documents inputs)

-- The comment, where there is one that is not empty, comes first: the keys are sorted.
abbrev pub address_document : AddIpInput → Json
address_document input = elim input.comment [
  | none ↦ obj (field "ipAddress" (str input.ip) end)
  | some c ↦
      if c == ""
      then obj (field "ipAddress" (str input.ip) end)
      else obj (field "comment" (str c) (field "ipAddress" (str input.ip) end))
]

abbrev pub no_entry : IpAccessListEntry
no_entry = record { ip_address = ""; cidr = ""; comment = ""; created = "" }

-- The answer with an access list: its `links` are read too, and must be an array.
abbrev pub read_links : Json → Decoded Bool → Decoded Bool
read_links (arr links) d = d
read_links null d = d
read_links _ d = record d { well_typed = false }

abbrev pub read_access_list :
    (Json → Decoded IpAccessListEntry → Decoded IpAccessListEntry)
    → IpAccessListEntry
    → Json
    → Decoded (List IpAccessListEntry)
    → Decoded (List IpAccessListEntry)
read_access_list read zero_value = read_struct (λ fs d.
    let results = into_field (read_slice read zero_value) "results" (λ l. l) (λ l v. v) fs d in
    into_field read_links "links" (λ l. true) (λ l v. l) fs results)
