-- ===== src/Organization/Update/Addresses.antt =====
-- How `Update` brings the address list to what is desired.
use custome_provider_mongo_d.Prelude.{
  ◌≡◌, true, sym, refl, ap, eq_iff, not, ◌&&◌, String, List, [], ◌∷◌, map, arith,
}
use custome_provider_mongo_d.Prelude.Lists.{member, keys_of}
use custome_provider_mongo_d.Prelude.Sets.{member-keys_of}
use custome_provider_mongo_d.Organization.Observe.{ips_match}
use custome_provider_mongo_d.Organization.Observe.Settled.{ips_match_iff}
use custome_provider_mongo_d.Go.Exec.{done}
use custome_provider_mongo_d.Api.Organization.{IpAccessEntry, Time}
use custome_provider_mongo_d.Mongo.Service.{Credentials}
use custome_provider_mongo_d.Organization.Platform.{
  Platform, External, State, Call, call, atlas, add_ips, remove_ip, IsLawful,
}
use custome_provider_mongo_d.Organization.Update.{
  missing_keys, input_of, ip_of, provisioned_entry, add_missing, remove_surplus, sync_ips,
}

-- `missingKeys a b`: the members of `b` that `a` lacks.
member-missing_keys :
    (a b : List String) (x : String)
    → member (missing_keys a b) x ≡ (member b x && not (member a x))
unfolding missing_keys
member-missing_keys a [] x = refl
member-missing_keys a (y ∷ b) x = ground (arith, member-missing_keys a b x, eq_iff y x)

pub map-ip_of-provisioned_entry :
    (now : Time) (entries : List IpAccessEntry)
    → map ip_of (map (provisioned_entry now) entries) ≡ map ip_of entries
map-ip_of-provisioned_entry now [] = refl
map-ip_of-provisioned_entry now (e ∷ entries) =
    ap (λ l. e.ip ∷ l) (map-ip_of-provisioned_entry now entries)

module _ (creds : Credentials) (org_id key_id : String) where
  -- The calls with one bulk addition, or none if there is nothing to add.
  unfoldable pub addition : List String → List Call → List Call
  addition [] h = h
  addition (ip ∷ ips) h = atlas creds (add_ips org_id key_id (map input_of (ip ∷ ips))) ∷ h

  -- The calls with one removal for each address, in order.
  unfoldable pub removals : List String → List Call → List Call
  removals [] h = h
  removals (ip ∷ ips) h = removals ips (atlas creds (remove_ip org_id key_id ip) ∷ h)

module _ (p : Platform) (c : External) (creds : Credentials) (org_id key_id : String) where
  remove_surplus_lem :
      (ips : List String) (s : State)
      → remove_surplus p c creds org_id key_id ips s
        ≡ (done tt, record s { calls = removals creds org_id key_id ips s.calls })
  unfolding remove_surplus removals call
  remove_surplus_lem [] s = refl
  remove_surplus_lem (ip ∷ ips) s = ground (
    arith,
    remove_surplus_lem ips
        (record s { calls = atlas creds (remove_ip org_id key_id ip) ∷ s.calls }),
  )

  add_missing_lem :
      (ips : List String) (s : State)
      → ((add_missing p c creds org_id key_id ips s).0 ≡ done tt)
        × ((add_missing p c creds org_id key_id ips s).1.calls
            ≡ addition creds org_id key_id ips s.calls)
        × ((add_missing p c creds org_id key_id ips s).1.cr.spec ≡ s.cr.spec)
  unfolding add_missing addition call
  add_missing_lem [] s = (refl, refl, refl)
  add_missing_lem (ip ∷ ips) s = ground arith

  module _ (now : Time) (s : State) where
    abbrev pub desired_ips : List String
    desired_ips = map ip_of s.cr.spec.for_provider.network_access_config.ips

    abbrev pub provisioned_ips : List String
    provisioned_ips = map ip_of s.cr.status.at_provider.provisioned_ips

    added : List String
    added = missing_keys (keys_of provisioned_ips) (p.range_keys s.calls (keys_of desired_ips))

    added_calls : List Call
    added_calls = addition creds org_id key_id added s.calls

    removed : List String
    removed =
        missing_keys (keys_of desired_ips) (p.range_keys added_calls (keys_of provisioned_ips))

    sync_ips-calls :
        (sync_ips p c creds org_id key_id now s).1.calls
        ≡ removals creds org_id key_id removed added_calls
    unfolding sync_ips added removed added_calls call
    sync_ips-calls = ground (
      arith,
      add_missing_lem added s,
      remove_surplus_lem removed (add_missing p c creds org_id key_id added s).1,
    )

    -- The step asks Atlas to add exactly the addresses that are desired and not provisioned, in one
    -- call, then to remove exactly those that are provisioned and not desired, one call each, and it
    -- makes no other call, whatever Atlas answers.
    pub sync_ips_requests :
        IsLawful p
        → (to_add to_remove : List String) × ((sync_ips p c creds org_id key_id now s).1.calls
            ≡ removals creds org_id key_id to_remove (addition creds org_id key_id to_add s.calls))
          × ((x : String)
              → member to_add x ≡ (member desired_ips x && not (member provisioned_ips x)))
          × ((x : String)
              → member to_remove x ≡ (member provisioned_ips x && not (member desired_ips x)))
    unfolding added removed added_calls
    sync_ips_requests lawful = (
      added,
      removed,
      sync_ips-calls,
      λ x. rw (member-missing_keys, lawful.member-range_keys, member-keys_of, member-keys_of) refl,
      λ x. rw (member-missing_keys, lawful.member-range_keys, member-keys_of, member-keys_of) refl,
    )

    pub sync_ips-status :
        ((sync_ips p c creds org_id key_id now s).0 ≡ done true)
        × ((sync_ips p c creds org_id key_id now s).1.cr.status.at_provider.ip_access_error ≡ "")
        × ((sync_ips p c creds org_id key_id now s).1.cr.status.at_provider.provisioned_ips
            ≡ map (provisioned_entry now) s.cr.spec.for_provider.network_access_config.ips)
    unfolding sync_ips added removed added_calls call
    sync_ips-status = ground (
      arith,
      add_missing_lem added s,
      remove_surplus_lem removed (add_missing p c creds org_id key_id added s).1,
    )

    -- The step always succeeds, and afterwards the status has no address error and `Observe` finds the
    -- addresses right, whether or not Atlas accepted any of the calls: a failed addition is lost.
    pub sync_ips_hides_failures :
        ((sync_ips p c creds org_id key_id now s).0 ≡ done true)
        × ((sync_ips p c creds org_id key_id now s).1.cr.status.at_provider.ip_access_error ≡ "")
        × (ips_match s.cr.spec.for_provider.network_access_config.ips
              (sync_ips p c creds org_id key_id now s).1.cr.status.at_provider.provisioned_ips
            ≡ true)
    sync_ips_hides_failures =
        let (returned, error, entries) = sync_ips-status in
        (
          returned,
          error,
          rw entries (
              (ips_match_iff _ _).1
                (λ x. ap (λ l. member l x) (sym (map-ip_of-provisioned_entry now _)))),
        )
