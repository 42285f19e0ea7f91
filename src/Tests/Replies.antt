-- ===== src/Tests/Replies.antt =====
-- The older Atlas client at a server with one organization.
use custome_provider_mongo_d.Prelude.{◌≡◌, ◌↔◌, refl, ℕ, false, none, some, []}
use custome_provider_mongo_d.Go.Exec.{done, ok}
use custome_provider_mongo_d.Go.Json.{json, obj, str, field, end}
use custome_provider_mongo_d.Atlas.{
  Credentials, Client, Body, Transport, response, GetOrgResponse, get_organization,
}
use custome_provider_mongo_d.Atlas.Replies.{Answers, get_organization_iff}

abbrev owner : Credentials
owner = record { public_key = "publicke"; private_key = "secret" }

abbrev owned_client : Client
owned_client = record { root_credentials = owner; org_credentials = some owner }

abbrev found_body : Body
found_body = record {
  text = "{\"name\":\"acme\"}";
  document = json (obj (field "name" (str "acme") end));
}

abbrev server : ℕ → Transport
server status = record {
  refused = λ r. none;
  send = λ sent creds r. response status (ok found_body);
}

abbrev no_content : ℕ
no_content = 204

abbrev acme : GetOrgResponse
acme = record { is_deleted = false; name = "acme" }

get_organization_iff_example :
    ((get_organization (server 200) owned_client "5f1a" []).0 ≡ done acme)
    ↔ Answers 200 (ok found_body) acme
get_organization_iff_example =
    get_organization_iff (server 200) owned_client "5f1a" [] owner refl 200 (ok found_body) refl
      refl acme
