-- ===== src/Organization/Update.antt =====
-- `Update`. Each step answers whether it changed the status (`statusChanged`).
pub mod Migration
pub mod Enforcement
pub mod Addresses
pub mod Calls
pub mod Refinement
pub mod Converges
pub mod Cycle
pub mod Stuck
pub mod Unchanged
use custome_provider_mongo_d.Prelude.{
  String, ◌<>◌, Bool, true, false, not, ◌&&◌, ◌||◌, Option, none, some, List, [], ◌∷◌, map, ◌==◌,
  ltb, bool_eq, if◌then◌else◌,
}
use custome_provider_mongo_d.Prelude.Lists.{length, member, keys_of}
use custome_provider_mongo_d.Prelude.Text.{is_blank}
use custome_provider_mongo_d.Go.Fault.{plain, wrapped, error_text}
use custome_provider_mongo_d.Mongo.Service.{Credentials, ApiKeyPair, AddIpInput}
use custome_provider_mongo_d.Aws.Secrets.{MongoDbApiCredentials}
use custome_provider_mongo_d.Organization.Status.{update_status_with_retry}
use custome_provider_mongo_d.Organization.Observe.{set_at_provider, desired_storage_type}
use custome_provider_mongo_d.Organization.Network.{resolve_api_key_id, add_all}
use custome_provider_mongo_d.Go.Exec.{
  Result, ok, err, pure, throw, panic, wrap, attempt, gets, when, ◌>>=◌, ◌>>◌,
}
use custome_provider_mongo_d.Api.Organization.{
  SecretStorageConfig, AwsSecretsManagerReference, IpAccessEntry, Time, secret_storage_type_aws,
  secret_storage_type_kubernetes,
}
use custome_provider_mongo_d.Organization.Names.{
  k8s_secret_name, k8s_secret_namespace, prefixed_name, equal_string_sets,
}
use custome_provider_mongo_d.Organization.Secrets.{
  create_or_update_k8s_secret, delete_k8s_secret, fetch_org_credentials,
}
use custome_provider_mongo_d.Organization.Platform.{
  Platform, External, State, Go, update_description, update_roles, set_enforcement, remove_ip,
  put_secret, delete_secret, atlas_call, get_cr,
}

abbrev pub creds_pair : Credentials → ApiKeyPair
creds_pair creds = record { public_key = creds.public_key; private_key = creds.private_key }

abbrev pub creds_secret : Credentials → MongoDbApiCredentials
creds_secret creds = record { public_key = creds.public_key; private_key = creds.private_key }

-- `needsEnforcementUpdate`
unfoldable pub needs_enforcement_update : Bool → Option Bool → Bool
needs_enforcement_update desired none = desired
needs_enforcement_update desired (some current) = not (bool_eq current desired)

-- The keys of the desired map that are not provisioned.
unfoldable pub missing_keys : List String → List String → List String
missing_keys current [] = []
missing_keys current (ip ∷ desired) =
    if member current ip then missing_keys current desired else ip ∷ missing_keys current desired

abbrev pub input_of : String → AddIpInput
input_of ip = record { ip = ip; comment = none }

abbrev pub ip_of : IpAccessEntry → String
ip_of e = e.ip

abbrev pub provisioned_entry : Time → IpAccessEntry → IpAccessEntry
provisioned_entry now e = record e {
  cidr_block = (if e.cidr_block == "" then e.ip <> "/32" else e.cidr_block);
  created_at = elim e.created_at [ none ↦ some now | some t ↦ some t ];
}

module _ (p : Platform) (c : External) where
  -- The name is read after the status was given the new one.
  abbrev pub delete_old_aws_secret : Option String → String → Go Unit
  delete_old_aws_secret none current = pure tt
  delete_old_aws_secret (some region) current = do
    cr ← get_cr
    when (current == secret_storage_type_aws && not (cr.status.at_provider.secret_name == ""))
        (do attempt (delete_secret p region cr.status.at_provider.secret_name true); pure tt)

  unfoldable pub migrate_to_kubernetes : String → Credentials → Go Bool
  migrate_to_kubernetes current creds = do
    cr ← get_cr
    wrap "failed to migrate secret to Kubernetes"
        (create_or_update_k8s_secret p cr (creds_pair creds))
    set_at_provider (λ o. record o {
      secret_name = k8s_secret_name cr;
      secret_namespace = k8s_secret_namespace cr;
      secret_storage_type = secret_storage_type_kubernetes;
      secret_arn = "";
    })
    delete_old_aws_secret c.aws_region current
    pure true

  abbrev pub put_migrated :
      String → AwsSecretsManagerReference → String → String → Credentials → Go Bool
  put_migrated region config org_id current creds = do
    let name = prefixed_name config org_id
    arn ←
        wrap "failed to migrate secret to AWS"
          (put_secret p region name (creds_secret creds) org_id config.kms_key_id)
    set_at_provider (λ o. record o {
      secret_arn = arn;
      secret_name = name;
      secret_storage_type = secret_storage_type_aws;
      secret_namespace = "";
    })
    cr ← get_cr
    when (current == secret_storage_type_kubernetes) (do attempt (delete_k8s_secret p cr); pure tt)
    pure true

  abbrev pub migrate_with :
      String → Option AwsSecretsManagerReference → String → String → Credentials → Go Bool
  migrate_with region none org_id current creds =
      throw (plain "AWS configuration required for AWS storage migration")
  migrate_with region (some config) org_id current creds =
      put_migrated region config org_id current creds

  -- `SecretStorageConfig.AWS` panics where there is no storage configuration.
  abbrev pub migrate_to_aws_as :
      Option String → Option SecretStorageConfig → String → String → Credentials → Go Bool
  migrate_to_aws_as none config org_id current creds =
      throw (plain "AWS client not available for migration")
  migrate_to_aws_as (some region) none org_id current creds = panic
  migrate_to_aws_as (some region) (some config) org_id current creds =
      migrate_with region config.aws org_id current creds

  unfoldable pub migrate_to_aws : String → String → Credentials → Go Bool
  migrate_to_aws org_id current creds = do
    cr ← get_cr
    migrate_to_aws_as c.aws_region cr.spec.for_provider.secret_storage_config org_id current creds

  abbrev pub migrate_from : String → String → String → Credentials → Go Bool
  migrate_from current desired org_id creds =
      if not (current == "") && not (desired == current)
      then if desired == secret_storage_type_kubernetes
        then migrate_to_kubernetes current creds
        else if desired == secret_storage_type_aws
        then migrate_to_aws org_id current creds
        else pure false
      else pure false

  unfoldable pub migrate : String → Credentials → Go Bool
  migrate org_id creds = do
    cr ← get_cr
    migrate_from cr.status.at_provider.secret_storage_type
        (desired_storage_type cr.spec.for_provider.secret_storage_config) org_id creds

  abbrev pub described : Result (Unit {0}) → Go Bool
  described (ok u) = pure false
  described (err e) = do
    set_at_provider
        (λ o. record o { enforcement_error = error_text (wrapped "update API key description" e) })
    pure true

  unfoldable pub describe_key : Credentials → String → String → Go Bool
  describe_key creds org_id key_id = do
    cr ← get_cr
    let desc = cr.spec.for_provider.api_key.description
    if is_blank desc then pure false else do
      answer ← attempt (
          atlas_call p creds (update_description org_id key_id desc)
            (λ s. s.update_org_api_key_description org_id key_id desc))
      described answer

  abbrev pub assigned : List String → Result (Unit {0}) → Go Bool
  assigned roles (ok u) = do set_at_provider (λ o. record o { api_key_roles = roles }); pure true
  assigned roles (err e) = do
    set_at_provider
        (λ o. record o { enforcement_error = error_text (wrapped "update API key roles" e) })
    pure true

  unfoldable pub assign_roles : Credentials → String → String → Go Bool
  assign_roles creds org_id key_id = do
    cr ← get_cr
    let roles = cr.spec.for_provider.api_key.roles
    if ltb 0 (length roles) && not (equal_string_sets cr.status.at_provider.api_key_roles roles)
        then (do
          answer ← attempt (
              atlas_call p creds (update_roles org_id key_id roles)
                (λ s. s.update_org_api_key_roles org_id key_id roles))
          assigned roles answer)
        else pure false

  abbrev pub update_found_key : Credentials → String → Option String → Go Bool
  update_found_key creds org_id none = pure false
  update_found_key creds org_id (some key_id) = do
    described ← describe_key creds org_id key_id
    roles ← assign_roles creds org_id key_id
    pure (described || roles)

  unfoldable pub update_key : String → Credentials → Go Bool
  update_key org_id creds = do
    found ← resolve_api_key_id p creds org_id
    update_found_key creds org_id found

  abbrev pub enforced : Bool → Time → Result (Unit {0}) → Go Bool
  enforced desired now (ok u) = do
    set_at_provider (λ o. record o {
      api_access_list_required = some desired;
      last_enforcement_toggle_time = some now;
      enforcement_error = "";
    })
    pure true
  enforced desired now (err e) = do
    set_at_provider (λ o. record o { enforcement_error = error_text e })
    pure true

  unfoldable pub update_enforcement : String → Credentials → Time → Go Bool
  update_enforcement org_id creds now = do
    cr ← get_cr
    let desired = cr.spec.for_provider.network_access_config.api_access_list_required
    if needs_enforcement_update desired cr.status.at_provider.api_access_list_required
        then (do
          answer ← attempt (
              atlas_call p creds (set_enforcement org_id desired)
                (λ s. s.set_org_admin_api_ip_enforcement org_id desired))
          enforced desired now answer)
        else pure false

  abbrev pub note_add_error : Result (Unit {0}) → Go Unit
  note_add_error (ok u) = pure tt
  note_add_error (err e) =
      set_at_provider
        (λ o. record o { ip_access_error = error_text (wrapped "bulk add new IPs" e) })

  unfoldable pub add_missing : Credentials → String → String → List String → Go Unit
  add_missing creds org_id key_id [] = pure tt
  add_missing creds org_id key_id (ip ∷ ips) = do
    answer ← attempt (add_all p creds org_id key_id (map input_of (ip ∷ ips)))
    note_add_error answer

  -- The loop over the provisioned addresses; a failed removal is logged.
  unfoldable pub remove_surplus : Credentials → String → String → List String → Go Unit
  remove_surplus creds org_id key_id [] = pure tt
  remove_surplus creds org_id key_id (ip ∷ ips) = do
    attempt (
        atlas_call p creds (remove_ip org_id key_id ip)
          (λ s. s.remove_ip_from_api_key_access_list org_id key_id ip))
    remove_surplus creds org_id key_id ips

  abbrev pub ranged : List String → Go (List String)
  ranged keys = gets (λ (s : State). p.range_keys s.calls keys)

  unfoldable pub sync_ips : Credentials → String → String → Time → Go Bool
  sync_ips creds org_id key_id now = do
    cr ← get_cr
    let network = cr.spec.for_provider.network_access_config
    let current = keys_of (map ip_of cr.status.at_provider.provisioned_ips)
    let desired = keys_of (map ip_of network.ips)
    to_visit ← ranged desired
    add_missing creds org_id key_id (missing_keys current to_visit)
    provisioned ← ranged current
    remove_surplus creds org_id key_id (missing_keys desired provisioned)
    set_at_provider (λ o. record o {
      provisioned_ips = map (provisioned_entry now) network.ips;
      ip_access_entry_count = length network.ips;
      ip_access_error = "";
      last_ip_access_update = some now;
    })
    pure true

  abbrev pub sync_found : Credentials → String → Time → Option String → Go Bool
  sync_found creds org_id now none = pure false
  sync_found creds org_id now (some key_id) = sync_ips creds org_id key_id now

  abbrev pub sync_resolved : String → Credentials → Time → Go Bool
  sync_resolved org_id creds now = do
    found ← resolve_api_key_id p creds org_id
    sync_found creds org_id now found

  unfoldable pub update_ips : String → Credentials → Time → Go Bool
  update_ips org_id creds now = do
    cr ← get_cr
    if cr.spec.for_provider.network_access_config.enabled
        then sync_resolved org_id creds now
        else pure false

  unfoldable pub update_org : String → Go Unit
  update_org org_id = do
    now ← gets (λ (s : State). p.now s.calls)
    cr ← get_cr
    creds ← wrap "failed to fetch org credentials" (fetch_org_credentials p c cr)
    migrated ← migrate org_id creds
    key_changed ← update_key org_id creds
    enforcement_changed ← update_enforcement org_id creds now
    ips_changed ← update_ips org_id creds now
    when (migrated || key_changed || enforcement_changed || ips_changed)
        (wrap "updating status after update" (update_status_with_retry p))

  unfoldable pub update : Go Unit
  update = do
    cr ← get_cr
    if p.get_external_name cr.metadata == ""
        then pure tt
        else update_org (p.get_external_name cr.metadata)
