-- ===== src/Organization/Update/Refinement.antt =====
-- The address step of `Update` as one assignment of an address set.
use custome_provider_mongo_d.Prelude.{
  ◌≡◌, ◌≢◌, refl, sym, ap, ◌∙◌, eq_refl, String, Bool, true, false, not, ◌&&◌, ◌||◌, List, [], ◌∷◌,
  map, ◌==◌, if◌then◌else◌, arith,
}
use custome_provider_mongo_d.Prelude.Lists.{member}
use custome_provider_mongo_d.Go.Exec.{Result, ok, err}
use custome_provider_mongo_d.Api.Organization.{Time}
use custome_provider_mongo_d.Mongo.Service.{Credentials, AddIpInput}
use custome_provider_mongo_d.Organization.Platform.{
  Platform, External, State, Call, atlas, add_ips, remove_ip, IsLawful,
}
use custome_provider_mongo_d.Organization.Update.{input_of, ip_of, sync_ips}
use custome_provider_mongo_d.Organization.Update.Addresses.{
  addition, removals, desired_ips, sync_ips_requests, sync_ips-status, map-ip_of-provisioned_entry,
}

-- The addresses that an API key may be used from.
abbrev pub AddressSet : Type 0
AddressSet = String → Bool

abbrev pub is_accepted : Result (Unit {0}) → Bool
is_accepted (ok u) = true
is_accepted (err e) = false

abbrev ip_of_input : AddIpInput → String
ip_of_input i = i.ip

module _ (p : Platform) (org_id key_id : String) where
  -- What a call, answered after the calls `h`, does to the addresses of the key.
  abbrev pub effect : List Call → Call → AddressSet → AddressSet
  effect h (atlas creds (add_ips org key inputs)) r x =
      if org == org_id
        && key == key_id
        && is_accepted ((p.service h creds).add_ips_to_api_key_access_list org key inputs)
      then r x || member (map ip_of_input inputs) x
      else r x
  effect h (atlas creds (remove_ip org key ip)) r x =
      if org == org_id
        && key == key_id
        && is_accepted ((p.service h creds).remove_ip_from_api_key_access_list org key ip)
      then r x && not (ip == x)
      else r x
  effect h c r x = r x

  -- The addresses of the key after the calls, from those at the start.
  unfoldable pub remote : AddressSet → List Call → AddressSet
  remote start [] = start
  remote start (c ∷ h) = effect h c (remote start h)

  -- Every addition with some credentials is accepted, and every removal of an address that is not empty.
  pub record Accepts (creds : Credentials) : Type 0 where
    pub additions :
        (h : List Call) (inputs : List AddIpInput)
        → (p.service h creds).add_ips_to_api_key_access_list org_id key_id inputs ≡ ok tt
    pub removals :
        (h : List Call) (ip : String)
        → ip ≢ ""
        → (p.service h creds).remove_ip_from_api_key_access_list org_id key_id ip ≡ ok tt

  -- The addresses that the status records are those of the key.
  unfoldable pub Represents : AddressSet → State → Type 0
  Represents start s =
      (x : String)
      → remote start s.calls x ≡ member (map ip_of s.cr.status.at_provider.provisioned_ips) x

  inputs_lem : (ips : List String) → map ip_of_input (map input_of ips) ≡ ips
  inputs_lem [] = refl
  inputs_lem (ip ∷ ips) = ap (λ l. ip ∷ l) (inputs_lem ips)

  module _ (start : AddressSet) (creds : Credentials) (accepts : Accepts creds) where
    remote-addition :
        (ips : List String) (h : List Call) (x : String)
        → remote start (addition creds org_id key_id ips h) x ≡ (remote start h x || member ips x)
    unfolding remote addition
    remote-addition [] h x = ground arith
    remote-addition (ip ∷ ips) h x =
        rw
          (
            eq_refl org_id,
            eq_refl key_id,
            accepts.additions h (map input_of (ip ∷ ips)),
            inputs_lem ips,
          )
          refl

    remote_removal :
        (ip : String) (h : List Call) (x : String)
        → ip ≢ ""
        → remote start (atlas creds (remove_ip org_id key_id ip) ∷ h) x
          ≡ (remote start h x && not (ip == x))
    unfolding remote
    remote_removal ip h x given =
        rw (eq_refl org_id, eq_refl key_id, accepts.removals h ip given) refl

    remote-removals :
        (ips : List String) (h : List Call) (x : String)
        → member ips "" ≡ false
        → remote start (removals creds org_id key_id ips h) x
          ≡ (remote start h x && not (member ips x))
    unfolding removals
    remote-removals [] h x full = ground arith
    remote-removals (ip ∷ ips) h x full =
        let given : ip ≢ "" = λ e. ground (arith, full, eq_refl ip, ap (λ y. y == "") e) in
        remote-removals ips (atlas creds (remove_ip org_id key_id ip) ∷ h) x (ground (arith, full))
        ∙ ground (arith, remote_removal ip h x given)

    module _ (c : External) (now : Time) (s : State) (lawful : IsLawful p)
        (represents : Represents start s)
        (full : member (map ip_of s.cr.status.at_provider.provisioned_ips) "" ≡ false) where
      settled :
          (x : String)
          → remote start (sync_ips p c creds org_id key_id now s).1.calls x
            ≡ member (desired_ips p c creds org_id key_id now s) x
      unfolding Represents
      settled x =
          let (to_add, to_remove, calls, adds, removes) =
            sync_ips_requests p c creds org_id key_id now s lawful in
          rw calls (
            remote-removals to_remove (addition creds org_id key_id to_add s.calls) x
              (ground (arith, removes "", full))
            ∙ ground (arith, remote-addition to_add s.calls x, represents x, adds x, removes x))

      -- Where every addition is accepted, and every removal of an address that is not empty, the address step
      -- refines the assignment of the key's addresses: if the status recorded the key's addresses before, no
      -- empty one among them, then afterwards these are the desired ones, and the status records them again.
      pub sync_ips-Represents :
          Represents start (sync_ips p c creds org_id key_id now s).1
          × ((x : String)
              → remote start (sync_ips p c creds org_id key_id now s).1.calls x
                ≡ member (map ip_of s.cr.spec.for_provider.network_access_config.ips) x)
      unfolding Represents
      sync_ips-Represents =
          let (returned, error, entries) = sync_ips-status p c creds org_id key_id now s in
          (
            λ x.
                settled x
                ∙ rw entries (ap (λ l. member l x) (sym (map-ip_of-provisioned_entry now _))),
            settled,
          )
