-- ===== src/Organization/Update/Enforcement.antt =====
-- Whether `Update` brings the enforcement to what `Observe` wants to see.
use custome_provider_mongo_d.Prelude.{◌≡◌, ◌≢◌, ◌⊎◌, Bool, true, false, String, none, arith}
use custome_provider_mongo_d.Go.Exec.{Result, done, ok}
use custome_provider_mongo_d.Api.Organization.{Time}
use custome_provider_mongo_d.Mongo.Service.{Credentials}
use custome_provider_mongo_d.Organization.Observe.{enforcement_matches}
use custome_provider_mongo_d.Organization.Platform.{Platform, External, State, call}
use custome_provider_mongo_d.Organization.Update.{update_enforcement, needs_enforcement_update}

module _ (p : Platform) (c : External) (s : State) (org_id : String) (creds : Credentials)
    (now : Time) where
  -- What Atlas would answer to a change of the enforcement.
  abbrev pub enforcement_answer : Bool → Result (Unit {0})
  enforcement_answer required =
      (p.service s.calls creds).set_org_admin_api_ip_enforcement org_id required

  -- A resource that wants no enforcement and whose enforcement is not known stays as it is: `Observe`
  -- finds the enforcement different, and `Update` makes no call and changes nothing.
  pub enforcement_never_settles :
      s.cr.spec.for_provider.network_access_config.api_access_list_required ≡ false
      → s.cr.status.at_provider.api_access_list_required ≡ none
      → (enforcement_matches s.cr ≡ false)
        × (update_enforcement p c org_id creds now s ≡ (done false, s))
  unfolding update_enforcement enforcement_matches needs_enforcement_update call
  enforcement_never_settles wanted unknown = (ground arith, ground arith)

  -- In every other case one accepted change settles it: if the enforcement is wanted or its state is
  -- known, and Atlas accepts a change to what is wanted, `Observe` finds it right afterwards.
  pub enforcement_settles :
      (s.cr.spec.for_provider.network_access_config.api_access_list_required ≡ true)
        ⊎ (s.cr.status.at_provider.api_access_list_required ≢ none)
      → enforcement_answer s.cr.spec.for_provider.network_access_config.api_access_list_required
        ≡ ok tt
      → enforcement_matches (update_enforcement p c org_id creds now s).1.cr ≡ true
  unfolding update_enforcement enforcement_matches needs_enforcement_update call
  enforcement_settles known accepted = ground arith
