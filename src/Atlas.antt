-- ===== src/Atlas.antt =====
-- The older Atlas client, internal/clients/atlas/organization.go.
pub mod Replies
use custome_provider_mongo_d.Prelude.{
  ℕ, String, ◌<>◌, Bool, false, Option, none, some, List, [], ◌∷◌, nat_eq, if◌then◌else◌,
}
use custome_provider_mongo_d.Go.Fault.{Fault, plain, decimal}
use custome_provider_mongo_d.Go.Exec.{
  Result, ok, err, Exec, pure, throw, or_panic, from_result, ◌>>=◌, ◌>>◌,
}
use custome_provider_mongo_d.Go.Json.{
  Json, str, arr, obj, Fields, end, field, Document, Decoded, read_string, read_bool,
}
use custome_provider_mongo_d.Go.Struct.{into_field, read_struct, decode, strings}

pub record Credentials : Type 0 where
  pub public_key : String
  pub private_key : String

-- `Client`
pub record Client : Type 0 where
  pub root_credentials : Credentials
  pub org_credentials : Option Credentials

pub record GetOrgResponse : Type 0 where
  pub is_deleted : Bool
  pub name : String

pub record ErrorResponse : Type 0 where
  pub reason : String
  pub detail : String

pub record ApiKey : Type 0 where
  pub description : String
  pub roles : List String

pub record CreateOrgPayload : Type 0 where
  pub name : String
  pub org_owner_id : String
  pub api_key : ApiKey

-- The two anonymous structs of `CreateOrgResponse`.
pub record CreatedKey : Type 0 where
  pub id : String
  pub private_key : String
  pub public_key : String

pub record CreatedOrganization : Type 0 where
  pub id : String
  pub is_deleted : Bool

pub record CreateOrgResponse : Type 0 where
  pub api_key : CreatedKey
  pub organization : CreatedOrganization

pub record Request : Type 0 where
  pub method : String
  pub url : String
  pub payload : Option Json
  pub content_type : Option String

-- The bytes of a body, as text and as the document that they are read as.
pub record Body : Type 0 where
  pub text : String
  pub document : Document

-- A reply's body is read by `io.ReadAll`, which may fail.
pub data Reply : Type 0 where
  unreachable : Fault → Reply
  response : ℕ → Result Body → Reply

abbrev pub Sent : Type 0
Sent = Credentials × Request

-- Go's HTTP client with digest authentication, which answers by the requests before, and its check of a
-- request before it is sent.
pub record Transport : Type 0 where
  pub refused : Request → Option Fault
  pub send : List Sent → Credentials → Request → Reply

-- The state is the requests that were sent, latest first.
abbrev pub Go : Type 0 → Type 0
Go A = Exec (List Sent) A

abbrev pub root_url : String
root_url = "https://cloud.mongodb.com/api/atlas/v1.0/orgs"

abbrev pub organization_url : String → String
organization_url org_id = "https://cloud.mongodb.com/api/atlas/v1.0/orgs/" <> org_id

unfoldable pub err_request : ℕ → String → Fault
err_request status reason =
    plain ("request failed with status code " <> (decimal status <> (" and reason: " <> reason)))

abbrev pub err_not_found : Fault
err_not_found = plain "not found"

abbrev pub read_get_org : Fields → Decoded GetOrgResponse → Decoded GetOrgResponse
read_get_org fs d =
    into_field read_string "name" (λ (o : GetOrgResponse). o.name) (λ o v. record o { name = v }) fs
      (into_field read_bool "isDeleted" (λ (o : GetOrgResponse). o.is_deleted)
        (λ o v. record o { is_deleted = v }) fs d)

abbrev pub no_org : GetOrgResponse
no_org = record { is_deleted = false; name = "" }

abbrev pub read_error : Fields → Decoded ErrorResponse → Decoded ErrorResponse
read_error fs d =
    into_field read_string "detail" (λ (e : ErrorResponse). e.detail)
      (λ e v. record e { detail = v }) fs
      (into_field read_string "reason" (λ (e : ErrorResponse). e.reason)
        (λ e v. record e { reason = v }) fs d)

abbrev pub read_created_key : Fields → Decoded CreatedKey → Decoded CreatedKey
read_created_key fs d =
    into_field read_string "publicKey" (λ (k : CreatedKey). k.public_key)
      (λ k v. record k { public_key = v }) fs
      (into_field read_string "privateKey" (λ (k : CreatedKey). k.private_key)
        (λ k v. record k { private_key = v }) fs
        (into_field read_string "id" (λ (k : CreatedKey). k.id) (λ k v. record k { id = v }) fs d))

abbrev pub read_created_organization :
    Fields → Decoded CreatedOrganization → Decoded CreatedOrganization
read_created_organization fs d =
    into_field read_bool "isDeleted" (λ (o : CreatedOrganization). o.is_deleted)
      (λ o v. record o { is_deleted = v }) fs
      (into_field read_string "id" (λ (o : CreatedOrganization). o.id) (λ o v. record o { id = v })
        fs d)

abbrev pub read_create_org : Fields → Decoded CreateOrgResponse → Decoded CreateOrgResponse
read_create_org fs d =
    into_field (read_struct read_created_organization) "organization"
      (λ (r : CreateOrgResponse). r.organization) (λ r v. record r { organization = v }) fs
      (into_field (read_struct read_created_key) "apiKey" (λ (r : CreateOrgResponse). r.api_key)
        (λ r v. record r { api_key = v }) fs d)

abbrev pub nothing_created : CreateOrgResponse
nothing_created = record {
  api_key = record { id = ""; private_key = ""; public_key = "" };
  organization = record { id = ""; is_deleted = false };
}

-- The payload's fields in the order of the struct.
unfoldable pub payload_document : CreateOrgPayload → Json
payload_document p = obj (
    field "name" (str p.name) (
      field "orgOwnerId" (str p.org_owner_id) (
        field "apiKey"
          (obj (
            field "desc" (str p.api_key.description)
              (field "roles" (arr (strings p.api_key.roles)) end)))
          end)))

-- The error of a reply, with the text that is made of the error's document and the body.
abbrev pub failure : {A : Type 0} → ℕ → (ErrorResponse → String) → Result ErrorResponse → Go A
failure status reason (err e) = throw e
failure status reason (ok r) = throw (err_request status (reason r))

abbrev pub error_of : Body → Result ErrorResponse
error_of body = decode (read_struct read_error) (record { reason = ""; detail = "" }) body.document

-- The reading of a body.
abbrev pub read_all : Result Body → Go Body
read_all answer sent = (from_result answer, sent)

abbrev pub after_get : ℕ → Body → Go GetOrgResponse
after_get status body =
    if nat_eq status 200
    then (λ sent. (from_result (decode (read_struct read_get_org) no_org body.document), sent))
    else if nat_eq status 404
    then pure no_org
    else failure status (λ r. body.text) (error_of body)

abbrev pub after_create : ℕ → Body → Go CreateOrgResponse
after_create status body =
    if nat_eq status 201
    then (λ sent.
        (from_result (decode (read_struct read_create_org) nothing_created body.document), sent))
    else if nat_eq status 404
    then throw (plain ("not found: " <> body.text))
    else failure status (λ (r : ErrorResponse). r.detail) (error_of body)

-- The body is read after the statuses were tested.
abbrev pub after_delete : ℕ → Result Body → Go Unit
after_delete status answer =
    if nat_eq status 204 then pure tt else if nat_eq status 404 then throw err_not_found else (do
      body ← read_all answer
      failure status (λ (r : ErrorResponse). r.reason) (error_of body))

abbrev pub checked_request : Option Fault → Go Unit
checked_request none = pure tt
checked_request (some e) = throw e

abbrev pub replied : Reply → Go (ℕ × Result Body)
replied (unreachable e) = throw e
replied (response status answer) = pure (status, answer)

module _ (t : Transport) where
  unfoldable pub exchange : Credentials → Request → Go (ℕ × Result Body)
  exchange creds r sent = replied (t.send sent creds r) ((creds, r) ∷ sent)

  abbrev pub get_request : String → Request
  get_request org_id = record {
    method = "GET";
    url = organization_url org_id;
    payload = none;
    content_type = none;
  }

  abbrev pub get_with : String → Option Credentials → Go GetOrgResponse
  get_with org_id none = throw (plain "missing org credentials to get organization")
  get_with org_id (some creds) = do
    checked_request (t.refused (get_request org_id))
    answer ← exchange creds (get_request org_id)
    body ← read_all answer.1
    after_get answer.0 body

  unfoldable pub get_organization : Client → String → Go GetOrgResponse
  get_organization c org_id = get_with org_id c.org_credentials

  abbrev pub create_request : String → ApiKey → String → Request
  create_request name key owner_id = record {
    method = "POST";
    url = root_url;
    payload =
        some (payload_document (record { name = name; org_owner_id = owner_id; api_key = key }));
    content_type = some "application/json";
  }

  unfoldable pub create_organization : Client → String → ApiKey → String → Go CreateOrgResponse
  create_organization c name key owner_id = do
    checked_request (t.refused (create_request name key owner_id))
    answer ← exchange c.root_credentials (create_request name key owner_id)
    body ← read_all answer.1
    after_create answer.0 body

  -- The method is POST.
  abbrev pub delete_request : String → Request
  delete_request org_id = record {
    method = "POST";
    url = organization_url org_id;
    payload = none;
    content_type = some "application/json";
  }

  -- `getOrgClient` dereferences the credentials, which may be nil.
  unfoldable pub delete_organization : Client → String → Go Unit
  delete_organization c org_id = do
    checked_request (t.refused (delete_request org_id))
    creds ← or_panic c.org_credentials
    answer ← exchange creds (delete_request org_id)
    after_delete answer.0 answer.1
