-- ===== src/Organization/Observe/Storage.antt =====
-- How `Observe` records the storage of the API key.
use custome_provider_mongo_d.Prelude.{◌≡◌, arith, ◌≢◌, refl, eq_iff, eq_refl}
use custome_provider_mongo_d.Go.Exec.{done}
use custome_provider_mongo_d.Organization.Platform.{call, Platform, External, State}
use custome_provider_mongo_d.Organization.Observe.{
  Observation, observe, observe_settled, record_secret, desired_storage_type, is_up_to_date, String,
  true, none, false,
}
use custome_provider_mongo_d.Organization.Update.{migrate}
use custome_provider_mongo_d.Api.Organization.{Organization}
use custome_provider_mongo_d.Mongo.Service.{Credentials}

pub record_secret-storage_type :
    (p : Platform) (c : External) (s : State)
    → ((record_secret p c s).0 ≡ done tt)
      × ((record_secret p c s).1.cr.status.at_provider.secret_storage_type
          ≡ desired_storage_type s.cr.spec.for_provider.secret_storage_config)
      × ((record_secret p c s).1.cr.spec ≡ s.cr.spec)
      × ((record_secret p c s).1.cr.metadata ≡ s.cr.metadata)
unfolding record_secret call
record_secret-storage_type p c s = ground arith

-- The resource has its external name and is not being deleted.
pub record IsSettled (p : Platform) (cr : Organization) : Type 0 where
  pub named : p.get_external_name cr.metadata ≢ ""
  pub live : cr.metadata.deletion_timestamp ≡ none

pub observe-settled :
    (p : Platform) (c : External) (s : State)
    → IsSettled p s.cr
    → observe p c s ≡ observe_settled p c s
unfolding observe call
observe-settled p c s h =
    ground (arith, h.named, h.live, eq_iff (p.get_external_name s.cr.metadata) "")

-- After `Observe` of a settled resource the status holds the desired storage type, so an `Update` of
-- the same resource never migrates the secret: whatever the environment and the storage recorded
-- before, the migration step changes nothing, makes no call and reports no change.
pub migrate-observe :
    (p : Platform) (c : External) (s : State) (org_id : String) (creds : Credentials)
    → IsSettled p s.cr
    → migrate p c org_id creds (observe p c s).1 ≡ (done false, (observe p c s).1)
unfolding migrate observe_settled call
migrate-observe p c s org_id creds h = rw (observe-settled p c s h) (
    ground (
      arith,
      record_secret-storage_type p c s,
      eq_refl (desired_storage_type s.cr.spec.for_provider.secret_storage_config),
    ))

-- `Observe` of a settled resource always succeeds and reports it as existing, whatever AWS answers.
observe-settled_exists :
    (p : Platform) (c : External) (s : State)
    → IsSettled p s.cr
    → (r : Observation) × ((observe p c s).0 ≡ done r) × (r.resource_exists ≡ true)
unfolding observe_settled call
observe-settled_exists p c s h = rw (observe-settled p c s h) (
  record { resource_exists = true; resource_up_to_date = is_up_to_date (record_secret p c s).1.cr },
  ground (arith, record_secret-storage_type p c s),
  refl,
)
