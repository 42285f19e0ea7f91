-- ===== src/Organization/Create.antt =====
-- `Create`.
pub mod Once
pub mod Order
pub mod Search
pub mod Stored
pub mod Misnamed
use custome_provider_mongo_d.Prelude.{
  String, true, not, ◌&&◌, ◌||◌, Option, none, some, List, [], ◌∷◌, ◌==◌, ltb, if◌then◌else◌,
}
use custome_provider_mongo_d.Prelude.Lists.{length}
use custome_provider_mongo_d.Go.Fault.{
  plain, wrapped, error_text, is_not_found_error, is_retryable_error,
}
use custome_provider_mongo_d.Go.Exec.{
  Result, ok, err, pure, throw, panic, wrap, attempt, gets, ◌>>=◌, ◌>>◌,
}
use custome_provider_mongo_d.Api.Organization.{
  Organization, OrganizationObservation, SecretStorageConfig, AwsSecretsManagerReference,
  IpAccessEntry, Time, organization_state_active, secret_storage_type_aws,
  secret_storage_type_kubernetes,
}
use custome_provider_mongo_d.Mongo.Service.{
  Organization as AtlasOrganization, ApiKeyPair, CreateOrganizationInput,
}
use custome_provider_mongo_d.Aws.Secrets.{MongoDbApiCredentials}
use custome_provider_mongo_d.Organization.Names.{
  k8s_secret_name, k8s_secret_namespace, final_secret_name, prefixed_name, mask_api_key,
}
use custome_provider_mongo_d.Organization.Errors.{is_unauthorized_error}
use custome_provider_mongo_d.Organization.Secrets.{create_or_update_k8s_secret}
use custome_provider_mongo_d.Organization.Status.{
  PersistMessages, with_external_name, persist_external_name, update_status_with_retry,
}
use custome_provider_mongo_d.Organization.Observe.{set_at_provider, adopted}
use custome_provider_mongo_d.Organization.Network.{
  provision_ip_access, enable_api_access_list_required,
}
use custome_provider_mongo_d.Organization.Platform.{
  Platform, External, State, Go, get_organization_by_name, create_organization, put_secret,
  atlas_call, kube_status_update, get_cr, set_cr,
}

-- `managed.ConnectionDetails`
abbrev pub ConnectionDetails : Type 0
ConnectionDetails = List (String × String)

abbrev pub key_secret : ApiKeyPair → MongoDbApiCredentials
key_secret key = record { public_key = key.public_key; private_key = key.private_key }

unfoldable pub creation_input : Organization → CreateOrganizationInput
creation_input cr = record {
  name = cr.metadata.name;
  owner_id = cr.spec.for_provider.owner_id;
  api_key = record {
    description = cr.spec.for_provider.api_key.description;
    roles = cr.spec.for_provider.api_key.roles;
  };
}

-- The status after the key was stored in AWS.
abbrev pub stored_in_aws : String → String → OrganizationObservation → OrganizationObservation
stored_in_aws name arn o = record o {
  secret_arn = arn;
  secret_name = name;
  secret_storage_type = secret_storage_type_aws;
  created_with_credential_source = "AWS";
}

module _ (p : Platform) (c : External) where
  abbrev pub restore_messages : PersistMessages
  restore_messages = record {
    fetching = "re-get before restoring external-name in create";
    after_conflict = "persisting external-name restore after conflict";
    refetching = "re-get after conflict while restoring external-name";
    updating = "persisting external-name restore";
  }

  unfoldable pub create_restore : String → Go ConnectionDetails
  create_restore restore_id = do persist_external_name p restore_messages restore_id; pure []

  abbrev pub reuse_messages : PersistMessages
  reuse_messages = record {
    fetching = "re-get before persisting external-name";
    after_conflict = "updating external-name after conflict";
    refetching = "re-get after conflict";
    updating = "updating external-name after reuse";
  }

  unfoldable pub create_reuse : AtlasOrganization → Go ConnectionDetails
  create_reuse org = do
    set_cr (λ cr. with_external_name p cr org.id)
    set_at_provider (adopted org)
    latest ← persist_external_name p reuse_messages org.id
    cr ← get_cr
    wrap "updating status after reuse" (kube_status_update p (record latest { status = cr.status }))
    pure []

  abbrev pub created_messages : PersistMessages
  created_messages = record {
    fetching = "re-get before persisting external-name after create";
    after_conflict = "updating external-name after conflict on create";
    refetching = "re-get after conflict on create";
    updating = "updating external-name after create";
  }

  -- The new organization is entered in the resource, and its external name is saved.
  unfoldable pub record_created : AtlasOrganization → ApiKeyPair → Go Unit
  record_created org key = do
    set_cr (λ cr. with_external_name p cr org.id)
    cr ← get_cr
    set_at_provider (λ o. record o {
      org_id = org.id;
      org_name = org.name;
      created_with_api_key_id = mask_api_key key.public_key;
      api_key_roles = cr.spec.for_provider.api_key.roles;
    })
    persist_external_name p created_messages org.id
    pure tt

  abbrev pub store_in_kubernetes : ApiKeyPair → Go String
  store_in_kubernetes key = do
    cr ← get_cr
    wrap "failed to store API key in Kubernetes Secret" (create_or_update_k8s_secret p cr key)
    set_at_provider (λ o. record o {
      secret_name = k8s_secret_name cr;
      secret_namespace = k8s_secret_namespace cr;
      secret_storage_type = secret_storage_type_kubernetes;
      created_with_credential_source = "Kubernetes";
    })
    pure ""

  abbrev pub put_in_aws : String → String → String → Option String → ApiKeyPair → Go String
  put_in_aws region name org_id kms_key_id key = do
    arn ←
        wrap "failed to store API key in AWS Secrets Manager"
          (put_secret p region name (key_secret key) org_id kms_key_id)
    set_at_provider (stored_in_aws name arn)
    pure arn

  abbrev pub store_in_aws :
      Option String → Option AwsSecretsManagerReference → AtlasOrganization → ApiKeyPair → Go String
  store_in_aws none config org key = throw (plain "AWS client not available for AWS secret storage")
  store_in_aws (some region) none org key =
      throw (plain "AWS configuration is required when secretStorageConfig.type is AWS")
  store_in_aws (some region) (some config) org key =
      put_in_aws region (prefixed_name config org.name) org.id config.kms_key_id key

  -- Without a storage configuration. `AWSSecretsConfig.KMSKeyID` panics where that is nil too.
  abbrev pub store_by_default :
      Option String → Option AwsSecretsManagerReference → AtlasOrganization → ApiKeyPair → Go String
  store_by_default none config org key =
      throw (plain "AWS client not available and no secretStorageConfig specified")
  store_by_default (some region) none org key = panic
  store_by_default (some region) (some config) org key = do
    cr ← get_cr
    put_in_aws region (final_secret_name cr) org.id config.kms_key_id key

  abbrev pub store_by :
      Organization → Option SecretStorageConfig → AtlasOrganization → ApiKeyPair → Go String
  store_by cr none org key =
      store_by_default c.aws_region cr.spec.for_provider.aws_secrets_config org key
  store_by cr (some config) org key =
      if config.storage_type == secret_storage_type_kubernetes
      then store_in_kubernetes key
      else if config.storage_type == secret_storage_type_aws
      then store_in_aws c.aws_region config.aws org key
      else pure ""

  -- The API key is stored; the ARN of its AWS secret, if it went there.
  unfoldable pub store_api_key : AtlasOrganization → ApiKeyPair → Go String
  store_api_key org key = do
    cr ← get_cr
    store_by cr cr.spec.for_provider.secret_storage_config org key

  abbrev pub after_provisioning :
      Result (List IpAccessEntry) → Time → OrganizationObservation → OrganizationObservation
  after_provisioning (err e) now o = record o { ip_access_error = error_text e }
  after_provisioning (ok provisioned) now o = record o {
    provisioned_ips = provisioned;
    ip_access_entry_count = length provisioned;
    last_ip_access_update = some now;
    ip_access_error = "";
  }

  abbrev pub provision : List IpAccessEntry → String → ApiKeyPair → Go Unit
  provision ips org_id key = do
    answer ← attempt (provision_ip_access p org_id ips key)
    now ← gets (λ (s : State). p.now s.calls)
    set_at_provider (after_provisioning answer now)

  unfoldable pub provision_new : String → ApiKeyPair → Go Unit
  provision_new org_id key = do
    cr ← get_cr
    let network = cr.spec.for_provider.network_access_config
    if network.enabled && ltb 0 (length network.ips)
        then provision network.ips org_id key
        else pure tt

  abbrev pub after_enforcing :
      Result (Unit {0}) → Time → OrganizationObservation → OrganizationObservation
  after_enforcing (err e) now o = record o { enforcement_error = error_text e }
  after_enforcing (ok u) now o = record o {
    api_access_list_required = some true;
    last_enforcement_toggle_time = some now;
    enforcement_error = "";
  }

  abbrev pub enforce : String → ApiKeyPair → Go Unit
  enforce org_id key = do
    answer ← attempt (enable_api_access_list_required p org_id key)
    now ← gets (λ (s : State). p.now s.calls)
    set_at_provider (after_enforcing answer now)

  unfoldable pub enforce_new : String → ApiKeyPair → Go Unit
  enforce_new org_id key = do
    cr ← get_cr
    if cr.spec.for_provider.network_access_config.api_access_list_required
        then enforce org_id key
        else pure tt

  abbrev pub connection_details : ApiKeyPair → String → ConnectionDetails
  connection_details key arn =
      ("publicKey", key.public_key)
      ∷ ("privateKey", key.private_key)
      ∷ (if arn == "" then [] else ("secretARN", arn) ∷ [])

  -- Everything after the organization exists: the addresses are added before the enforcement.
  unfoldable pub finish_creation : AtlasOrganization → ApiKeyPair → Go ConnectionDetails
  finish_creation org key = do
    record_created org key
    arn ← store_api_key org key
    set_at_provider (λ o. record o { state = some organization_state_active })
    provision_new org.id key
    enforce_new org.id key
    wrap "updating status after create" (update_status_with_retry p)
    pure (connection_details key arn)

  unfoldable pub create_new : Organization → Go ConnectionDetails
  create_new cr = do
    created ←
        atlas_call p c.credentials (create_organization (creation_input cr))
          (λ s. s.create_organization (creation_input cr))
    finish_creation created.0 created.1

  abbrev pub unsafe_message : String
  unsafe_message =
      "cannot safely create: adoption-by-name failed due to authorization/network constraints"

  abbrev pub create_unless_found :
      Organization → Result (Option AtlasOrganization) → Go ConnectionDetails
  create_unless_found cr (ok none) = create_new cr
  create_unless_found cr (ok (some org)) = create_reuse org
  create_unless_found cr (err e) =
      if is_not_found_error (some e)
      then create_new cr
      else if is_unauthorized_error (some e) || is_retryable_error (some e)
      then throw (wrapped unsafe_message e)
      else throw (wrapped "checking existing organization" e)

  unfoldable pub create_checked : Organization → Go ConnectionDetails
  create_checked cr = do
    found ← attempt (
        atlas_call p c.credentials (get_organization_by_name cr.metadata.name)
          (λ s. s.get_organization_by_name cr.metadata.name))
    create_unless_found cr found

  abbrev pub create_cr : Organization → Go ConnectionDetails
  create_cr cr =
      if not (p.get_external_name cr.metadata == "")
      then pure []
      else if not (cr.status.at_provider.org_id == "")
      then create_restore cr.status.at_provider.org_id
      else create_checked cr

  unfoldable pub create : Go ConnectionDetails
  create = do cr ← get_cr; create_cr cr
