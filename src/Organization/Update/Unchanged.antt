-- ===== src/Organization/Update/Unchanged.antt =====
-- What the steps of `Update` leave as it is.
use custome_provider_mongo_d.Prelude.{String, Bool, Option, none, some, List, [], ◌∷◌}
use custome_provider_mongo_d.Go.Exec.{Result, ok, err}
use custome_provider_mongo_d.Go.Keeps.{Keeps, Keeps-bind}
use custome_provider_mongo_d.Api.Organization.{Organization, OrganizationSpec, ObjectMeta, Time}
use custome_provider_mongo_d.Mongo.Service.{Credentials}
use custome_provider_mongo_d.Organization.Platform.{Platform, External}
use custome_provider_mongo_d.Organization.Update.{
  update_key, update_enforcement, update_ips, described, assigned, describe_key, assign_roles,
  update_found_key, note_add_error, add_missing, remove_surplus, sync_found, sync_ips, enforced,
}
use custome_provider_mongo_d.Organization.Shows.{Shows, shows_rules, resolve-Shows}

-- All that `Observe` compares, and what it compares besides the enforcement and the addresses.
abbrev pub named_view : Organization → OrganizationSpec × ObjectMeta × String
named_view o = (o.spec, o.metadata, o.status.at_provider.secret_name)

abbrev pub enforced_view : Organization → OrganizationSpec × ObjectMeta × String × Option Bool
enforced_view o = (
  o.spec, o.metadata, o.status.at_provider.secret_name,
  o.status.at_provider.api_access_list_required,
)

module _ (p : Platform) (c : External) where
  module _ {seen : OrganizationSpec × ObjectMeta × String × Option Bool} where
    described-Shows : (r : Result (Unit {0})) → Keeps (Shows enforced_view seen) (described p c r)
    described-Shows (ok u) = search shows_rules
    described-Shows (err e) = search shows_rules

    assigned-Shows :
        (roles : List String) (r : Result (Unit {0}))
        → Keeps (Shows enforced_view seen) (assigned p c roles r)
    assigned-Shows roles (ok u) = search shows_rules
    assigned-Shows roles (err e) = search shows_rules

    describe_key-Shows :
        (creds : Credentials) (org_id key_id : String)
        → Keeps (Shows enforced_view seen) (describe_key p c creds org_id key_id)
    unfolding describe_key
    describe_key-Shows creds org_id key_id = search (shows_rules, described-Shows) depth 9

    assign_roles-Shows :
        (creds : Credentials) (org_id key_id : String)
        → Keeps (Shows enforced_view seen) (assign_roles p c creds org_id key_id)
    unfolding assign_roles
    assign_roles-Shows creds org_id key_id = search (shows_rules, assigned-Shows) depth 9

    update_found_key-Shows :
        (creds : Credentials) (org_id : String) (found : Option String)
        → Keeps (Shows enforced_view seen) (update_found_key p c creds org_id found)
    update_found_key-Shows creds org_id none = search shows_rules
    update_found_key-Shows creds org_id (some key_id) =
        search (shows_rules, describe_key-Shows, assign_roles-Shows) depth 9

    pub update_key-Shows :
        (org_id : String) (creds : Credentials)
        → Keeps (Shows enforced_view seen) (update_key p c org_id creds)
    unfolding update_key
    update_key-Shows org_id creds =
        search (shows_rules, resolve-Shows, update_found_key-Shows) depth 9

    note_add_error-Shows :
        (r : Result (Unit {0})) → Keeps (Shows enforced_view seen) (note_add_error p c r)
    note_add_error-Shows (ok u) = search shows_rules
    note_add_error-Shows (err e) = search shows_rules

    add_missing-Shows :
        (creds : Credentials) (org_id key_id : String) (ips : List String)
        → Keeps (Shows enforced_view seen) (add_missing p c creds org_id key_id ips)
    unfolding add_missing
    add_missing-Shows creds org_id key_id [] = search shows_rules
    add_missing-Shows creds org_id key_id (ip ∷ ips) =
        search (shows_rules, note_add_error-Shows) depth 9

    remove_surplus-Shows :
        (creds : Credentials) (org_id key_id : String) (ips : List String)
        → Keeps (Shows enforced_view seen) (remove_surplus p c creds org_id key_id ips)
    unfolding remove_surplus
    remove_surplus-Shows creds org_id key_id [] = search shows_rules
    remove_surplus-Shows creds org_id key_id (ip ∷ ips) =
        Keeps-bind _ _ (search shows_rules) (λ _. remove_surplus-Shows creds org_id key_id ips)

    pub sync_found-Shows :
        (creds : Credentials) (org_id : String) (now : Time) (found : Option String)
        → Keeps (Shows enforced_view seen) (sync_found p c creds org_id now found)
    unfolding sync_ips
    sync_found-Shows creds org_id now none = search shows_rules
    sync_found-Shows creds org_id now (some key_id) =
        search (shows_rules, add_missing-Shows, remove_surplus-Shows) depth 14

    pub update_ips-Shows :
        (org_id : String) (creds : Credentials) (now : Time)
        → Keeps (Shows enforced_view seen) (update_ips p c org_id creds now)
    unfolding update_ips
    update_ips-Shows org_id creds now =
        search (shows_rules, resolve-Shows, sync_found-Shows) depth 9

  module _ {seen : OrganizationSpec × ObjectMeta × String} where
    enforced-Shows :
        (desired : Bool) (now : Time) (r : Result (Unit {0}))
        → Keeps (Shows named_view seen) (enforced p c desired now r)
    enforced-Shows desired now (ok u) = search shows_rules
    enforced-Shows desired now (err e) = search shows_rules

    pub update_enforcement-Shows :
        (org_id : String) (creds : Credentials) (now : Time)
        → Keeps (Shows named_view seen) (update_enforcement p c org_id creds now)
    unfolding update_enforcement
    update_enforcement-Shows org_id creds now = search (shows_rules, enforced-Shows) depth 9
