-- ===== src/Organization/Reconcile.antt =====
-- The handlers of the Organization controller in any order, and what else changes the resource
-- between them.
pub mod Rules
pub mod Steps
pub mod Observing
pub mod Creation
pub mod Uniqueness
pub mod Updating
pub mod Deletion
pub mod Invariant
use custome_provider_mongo_d.Prelude.{
  ℕ, suc, if◌then◌else◌, ◌≡◌, ◌⊎◌, String, Bool, true, false, not, ◌&&◌, Option, none, some, List,
  [], ◌∷◌, ltb, nat_eq, ◌==◌, is_some,
}
use custome_provider_mongo_d.Prelude.Lists.{length}
use custome_provider_mongo_d.Go.Exec.{Result, ok, err}
use custome_provider_mongo_d.Organization.Connect.{connect}
use custome_provider_mongo_d.Organization.Observe.{observe}
use custome_provider_mongo_d.Organization.Create.{create}
use custome_provider_mongo_d.Organization.Update.{update}
use custome_provider_mongo_d.Organization.Delete.{delete}
use custome_provider_mongo_d.Go.Fault.{is_not_found_error}
use custome_provider_mongo_d.Mongo.Service.{Credentials, Organization as AtlasOrganization}
use custome_provider_mongo_d.Organization.Platform.{
  Platform, External, State, Call, kube_update_status, atlas, create_organization,
  delete_organization,
}
use custome_provider_mongo_d.Api.Organization.{
  Organization, OrganizationObservation, organization_state_deleting, organization_state_deleted,
}

abbrev pub is_state : String → Option String → Bool
is_state s none = false
is_state s (some t) = t == s

-- The fields of a status agree: the count is that of the addresses, addresses have a time of their
-- update and a known enforcement one of its toggle, an organization that is being deleted has a counted
-- and timed attempt, and a deleted one the time of its deletion.
abbrev pub consistent : OrganizationObservation → Bool
consistent o =
    nat_eq o.ip_access_entry_count (length o.provisioned_ips)
    && not (ltb 0 (length o.provisioned_ips) && not (is_some o.last_ip_access_update))
    && not (is_some o.api_access_list_required && not (is_some o.last_enforcement_toggle_time))
    && not (
        is_state organization_state_deleting o.state
        && not (ltb 0 o.deletion_attempt_count && is_some o.last_deletion_attempt_time))
    && not (is_state organization_state_deleted o.state && not (is_some o.deleted_at))

-- The status of a resource that no handler has seen.
abbrev pub unobserved : OrganizationObservation
unobserved = record {
  org_id = "";
  org_name = "";
  secret_name = "";
  secret_arn = "";
  kms_key_id = "";
  secret_namespace = "";
  secret_storage_type = "";
  created_at = none;
  created_with_credential_source = "";
  created_with_api_key_id = "";
  api_key_roles = [];
  last_deletion_attempt_time = none;
  deletion_attempt_count = 0;
  last_deletion_attempt_error = "";
  deletion_phase = "";
  enforcement_disabled_at = none;
  enforcement_disabled = false;
  ips_cleaned_up = false;
  dependencies_checked = false;
  last_rate_limit_hit_time = none;
  force_delete_after_failures = false;
  state = none;
  deleted_at = none;
  api_access_list_required = none;
  last_enforcement_toggle_time = none;
  enforcement_error = "";
  provisioned_ips = [];
  ip_access_entry_count = 0;
  last_ip_access_update = none;
  ip_access_error = "";
}

-- A status that was sent to the server.
pub data WasSent (o : Organization) : List Call → Type 0 where
  now : (h : List Call) → WasSent o (kube_update_status o ∷ h)
  before : (c : Call) (h : List Call) → WasSent o h → WasSent o (c ∷ h)

-- The server keeps the status that an accepted status update has.
pub record KeepsStatus (p : Platform) : Type 0 where
  pub same_status :
      (h : List Call) (o updated : Organization)
      → (p.kube h).update_status o ≡ ok updated
      → updated.status ≡ o.status

module _ {A : Type 0} where
  abbrev pub is_ok : Result A → Bool
  is_ok (ok a) = true
  is_ok (err e) = false

-- How many organizations of a name Atlas created since it last accepted a deletion.
module _ (p : Platform) (name : String) where
  abbrev pub counted : Call → List Call → ℕ → ℕ
  counted (atlas creds (create_organization input)) h n =
      if input.name == name && is_ok ((p.service h creds).create_organization input)
      then suc n
      else n
  counted (atlas creds (delete_organization id)) h n =
      if is_ok ((p.service h creds).delete_organization id) then 0 else n
  counted c h n = n

  unfoldable pub creations : List Call → ℕ
  creations [] = 0
  creations (c ∷ h) = counted c h (creations h)

-- The search answers that there is no organization: none, or 404.
abbrev pub is_unknown : Result (Option AtlasOrganization) → Bool
is_unknown (ok none) = true
is_unknown (ok (some org)) = false
is_unknown (err e) = is_not_found_error (some e)

-- A search by name that finds nothing tells that no creation of an organization of that name was accepted
-- since the last accepted deletion.
pub record IsHonest (p : Platform) : Type 0 where
  pub none_created :
      (h : List Call) (creds : Credentials) (name : String)
      → is_unknown ((p.service h creds).get_organization_by_name name) ≡ true
      → creations p name h ≡ 0

-- The states that the handlers lead to, each with any client and whether it returns, fails or panics.
-- Between two of them the resource may be edited but for its status, and it may be read again: with the
-- status of any earlier update, accepted or lost, or with none.
pub data Reachable (p : Platform) : State → Type 0 where
  started : (s : State) → s.calls ≡ [] → s.cr.status.at_provider ≡ unobserved → Reachable p s
  connected : (s : State) → Reachable p s → Reachable p (connect p s).1
  observed : (c : External) (s : State) → Reachable p s → Reachable p (observe p c s).1
  created : (c : External) (s : State) → Reachable p s → Reachable p (create p c s).1
  updated : (c : External) (s : State) → Reachable p s → Reachable p (update p c s).1
  deleted : (c : External) (s : State) → Reachable p s → Reachable p (delete p c s).1
  edited :
      (s : State) (o : Organization)
      → Reachable p s
      → o.status ≡ s.cr.status
      → Reachable p (record s { cr = o })
  read_again :
      (s : State) (o sent : Organization)
      → Reachable p s
      → ((o.status.at_provider ≡ unobserved) ⊎ (WasSent sent s.calls × (o.status ≡ sent.status)))
      → Reachable p (record s { cr = o })
