-- ===== src/Organization/Network.antt =====
-- The steps on an organization's API key that several handlers make: finding its id, adding the
-- addresses of a new organization, and turning the enforcement on.
use custome_provider_mongo_d.Prelude.{
  String, ◌<>◌, true, Option, none, some, List, [], ◌∷◌, map, ◌==◌, if◌then◌else◌,
}
use custome_provider_mongo_d.Go.Exec.{Result, ok, err, pure, wrap, attempt, gets, ◌>>=◌, ◌>>◌}
use custome_provider_mongo_d.Api.Organization.{IpAccessEntry, Time}
use custome_provider_mongo_d.Mongo.Service.{Credentials, ApiKeyPair, AddIpInput}
use custome_provider_mongo_d.Organization.Platform.{
  Platform, Go, State, find_api_key_id, add_ips, set_enforcement, atlas_call,
}

abbrev pub key_credentials : ApiKeyPair → Credentials
key_credentials key = record { public_key = key.public_key; private_key = key.private_key }

-- `err != nil || apiKeyID == ""` is `none`.
abbrev pub resolved : Result String → Option String
resolved (err e) = none
resolved (ok id) = if id == "" then none else some id

abbrev pub add_input : IpAccessEntry → AddIpInput
add_input e = record { ip = e.ip; comment = none }

module _ (p : Platform) where
  unfoldable pub resolve_api_key_id : Credentials → String → Go (Option String)
  resolve_api_key_id creds org_id = do
    found ← attempt (
        atlas_call p creds (find_api_key_id org_id creds.public_key)
          (λ s. s.find_api_key_id org_id creds.public_key ""))
    pure (resolved found)

  unfoldable pub enable_api_access_list_required : String → ApiKeyPair → Go Unit
  enable_api_access_list_required org_id key = wrap "failed to enable apiAccessListRequired" (
      atlas_call p (key_credentials key) (set_enforcement org_id true)
        (λ s. s.set_org_admin_api_ip_enforcement org_id true))

  abbrev pub add_all : Credentials → String → String → List AddIpInput → Go Unit
  add_all creds org_id key_id inputs =
      atlas_call p creds (add_ips org_id key_id inputs)
        (λ s. s.add_ips_to_api_key_access_list org_id key_id inputs)

  abbrev pub provisioned_entry : Time → IpAccessEntry → IpAccessEntry
  provisioned_entry now e = record e { cidr_block = e.ip <> "/32"; created_at = some now }

  abbrev pub provision_with :
      String → List IpAccessEntry → ApiKeyPair → Option String → Go (List IpAccessEntry)
  provision_with org_id entries key none = pure []
  provision_with org_id entries key (some key_id) = do
    wrap "bulk add IPs to org API key access list"
        (add_all (key_credentials key) org_id key_id (map add_input entries))
    now ← gets (λ (s : State). p.now s.calls)
    pure (map (provisioned_entry now) entries)

  unfoldable pub provision_ip_access :
      String → List IpAccessEntry → ApiKeyPair → Go (List IpAccessEntry)
  unfolding resolve_api_key_id
  provision_ip_access org_id [] key = pure []
  provision_ip_access org_id (e ∷ entries) key = do
    found ← resolve_api_key_id (key_credentials key) org_id
    provision_with org_id (e ∷ entries) key found
