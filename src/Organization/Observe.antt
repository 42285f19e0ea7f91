-- ===== src/Organization/Observe.antt =====
-- `Observe`.
pub mod Settled
pub mod Calls
pub mod Storage
use custome_provider_mongo_d.Prelude.{
  String, Bool, true, false, not, ◌&&◌, ◌||◌, Option, none, some, List, map, ◌==◌, nat_eq, bool_eq,
  is_some, if◌then◌else◌,
}
use custome_provider_mongo_d.Prelude.Lists.{length, keys_of, all_in}
use custome_provider_mongo_d.Go.Fault.{wrapped, is_not_found_error, is_retryable_error}
use custome_provider_mongo_d.Go.Exec.{
  Result, ok, err, pure, throw, wrap, attempt, when, ◌>>=◌, ◌>>◌,
}
use custome_provider_mongo_d.Api.Organization.{
  Organization, OrganizationObservation, SecretStorageConfig, IpAccessEntry, available, deleting,
  Condition, organization_state_active, secret_storage_type_aws, secret_storage_type_kubernetes,
}
use custome_provider_mongo_d.Mongo.Service.{Organization as AtlasOrganization}
use custome_provider_mongo_d.Organization.Names.{
  k8s_secret_name, k8s_secret_namespace, final_secret_name,
}
use custome_provider_mongo_d.Organization.Errors.{is_unauthorized_error}
use custome_provider_mongo_d.Organization.Status.{
  PersistMessages, with_external_name, persist_external_name,
}
use custome_provider_mongo_d.Organization.Platform.{
  Platform, External, Go, get_organization_by_name, describe_secret, atlas_call, kube_status_update,
  get_cr, set_cr,
}

-- `managed.ExternalObservation`, the fields that the controller sets.
pub record Observation : Type 0 where
  pub resource_exists : Bool
  pub resource_up_to_date : Bool

abbrev pub absent : Observation
absent = record { resource_exists = false; resource_up_to_date = false }

abbrev pub stale : Observation
stale = record { resource_exists = true; resource_up_to_date = false }

-- `cr.Status.AtProvider` changed in place.
abbrev pub set_at_provider : (OrganizationObservation → OrganizationObservation) → Go Unit
set_at_provider f =
    set_cr (λ cr. record cr { status = record cr.status { at_provider = f cr.status.at_provider } })

module _ (p : Platform) where
  abbrev pub set_conditions : Condition → Go Unit
  set_conditions condition = set_cr (λ cr. record cr {
    status = record cr.status { conditions = p.set_condition cr.status.conditions condition };
  })

abbrev pub desired_storage_type : Option SecretStorageConfig → String
desired_storage_type none = secret_storage_type_aws
desired_storage_type (some config) = config.storage_type

abbrev pub ip_of : IpAccessEntry → String
ip_of e = e.ip

-- The desired and the provisioned addresses, as sets.
unfoldable pub ips_match : List IpAccessEntry → List IpAccessEntry → Bool
ips_match desired provisioned =
    let wanted = keys_of (map ip_of desired) in
    let current = keys_of (map ip_of provisioned) in
    nat_eq (length wanted) (length current) && all_in current wanted

unfoldable pub desired_secret_name : Organization → String
desired_secret_name cr = elim cr.spec.for_provider.secret_storage_config [
  | none ↦ final_secret_name cr
  | some config ↦
      if config.storage_type == secret_storage_type_kubernetes
      then k8s_secret_name cr
      else final_secret_name cr
]

unfoldable pub secret_name_matches : Organization → Bool
secret_name_matches cr =
    let name = cr.status.at_provider.secret_name in name == "" || name == desired_secret_name cr

abbrev pub enforcement_is : Bool → Option Bool → Bool
enforcement_is desired none = false
enforcement_is desired (some current) = bool_eq current desired

unfoldable pub enforcement_matches : Organization → Bool
enforcement_matches cr =
    enforcement_is cr.spec.for_provider.network_access_config.api_access_list_required
      cr.status.at_provider.api_access_list_required

unfoldable pub is_up_to_date : Organization → Bool
is_up_to_date cr =
    let network = cr.spec.for_provider.network_access_config in
    let ips =
      (if network.enabled
        then ips_match network.ips cr.status.at_provider.provisioned_ips
        else true) in
    secret_name_matches cr && enforcement_matches cr && ips

-- The organization found by name, written to the resource.
abbrev pub adopted : AtlasOrganization → OrganizationObservation → OrganizationObservation
adopted org o = record o {
  org_id = org.id;
  org_name = org.name;
  state = some organization_state_active;
}

module _ (p : Platform) (c : External) where
  -- The metadata of an AWS secret; where it cannot be had, nothing changes.
  abbrev pub describe_into :
      (String → OrganizationObservation → OrganizationObservation)
      → Result (Option String)
      → Go Unit
  describe_into f (ok (some arn)) = set_at_provider (f arn)
  describe_into f _ = pure tt

  abbrev pub describe_final :
      (String → String → OrganizationObservation → OrganizationObservation)
      → Option String
      → Organization
      → Go Unit
  describe_final f none cr = pure tt
  describe_final f (some region) cr = do
    desc ← attempt (describe_secret p region (final_secret_name cr))
    describe_into (f (final_secret_name cr)) desc

  -- The update of the secret metadata in the status.
  abbrev pub record_secret_as : Organization → Option SecretStorageConfig → Go Unit
  record_secret_as cr none = do
    set_at_provider (λ o. record o { secret_storage_type = secret_storage_type_aws })
    describe_final (λ name arn o. record o { secret_arn = arn; secret_name = name }) c.aws_region cr
  record_secret_as cr (some config) = do
    set_at_provider (λ o. record o { secret_storage_type = config.storage_type })
    if config.storage_type == secret_storage_type_kubernetes
        then set_at_provider (λ o. record o {
          secret_name = k8s_secret_name cr;
          secret_namespace = k8s_secret_namespace cr;
          secret_arn = "";
        })
        else when (config.storage_type == secret_storage_type_aws) (
            describe_final
              (λ name arn o. record o {
                secret_arn = arn;
                secret_name = name;
                secret_namespace = "";
              })
              c.aws_region cr)

  unfoldable pub record_secret : Go Unit
  record_secret = do cr ← get_cr; record_secret_as cr cr.spec.for_provider.secret_storage_config

  abbrev pub restore_messages : PersistMessages
  restore_messages = record {
    fetching = "fetching latest object to restore external-name from status";
    after_conflict = "updating external-name after conflict (restore)";
    refetching = "re-get after conflict for external-name restore";
    updating = "updating external-name after restore";
  }

  -- The external name was cleared, and the status has the organization's id.
  unfoldable pub observe_restore : String → Go Observation
  observe_restore restore_id = do
    set_cr (λ cr. with_external_name p cr restore_id)
    persist_external_name p restore_messages restore_id
    set_conditions p available
    pure stale

  abbrev pub adopt_messages : PersistMessages
  adopt_messages = record {
    fetching = "fetching latest object to persist external-name";
    after_conflict = "updating external-name after conflict";
    refetching = "re-get after conflict for external-name update";
    updating = "updating external-name after adopting existing org";
  }

  unfoldable pub observe_found : AtlasOrganization → Go Observation
  observe_found org = do
    set_cr (λ cr. with_external_name p cr org.id)
    set_at_provider (adopted org)
    latest ← persist_external_name p adopt_messages org.id
    cr ← get_cr
    wrap "updating status after adopting existing org"
        (kube_status_update p (record latest { status = cr.status }))
    pure stale

  abbrev pub blocked_message : String
  blocked_message = "adoption-by-name blocked (auth/network); cannot safely create"

  abbrev pub observe_search : Result (Option AtlasOrganization) → Go Observation
  observe_search (ok none) = pure absent
  observe_search (ok (some org)) = observe_found org
  observe_search (err e) =
      if is_unauthorized_error (some e) || is_retryable_error (some e)
      then throw (wrapped blocked_message e)
      else if is_not_found_error (some e)
      then pure absent
      else throw (wrapped "searching organization by name" e)

  -- No external name anywhere: adopt an organization by its name.
  unfoldable pub observe_adopt : Organization → Go Observation
  observe_adopt cr = do
    found ← attempt (
        atlas_call p c.credentials (get_organization_by_name cr.metadata.name)
          (λ s. s.get_organization_by_name cr.metadata.name))
    observe_search found

  unfoldable pub observe_settled : Go Observation
  observe_settled = do
    record_secret
    cr ← get_cr
    set_conditions p available
    pure (record { resource_exists = true; resource_up_to_date = is_up_to_date cr })

  unfoldable pub observe_deleting : Go Observation
  observe_deleting = do
    set_conditions p deleting
    pure (record { resource_exists = true; resource_up_to_date = false })

  abbrev pub observe_cr : Organization → Go Observation
  observe_cr cr =
      if p.get_external_name cr.metadata == "" && not (cr.status.at_provider.org_id == "")
      then observe_restore cr.status.at_provider.org_id
      else if p.get_external_name cr.metadata == ""
      then observe_adopt cr
      else if is_some cr.metadata.deletion_timestamp
      then observe_deleting
      else observe_settled

  unfoldable pub observe : Go Observation
  observe = do cr ← get_cr; observe_cr cr
