-- ===== src/Organization/Panics/Handlers.antt =====
-- The handlers of the Organization controller do not panic.
use custome_provider_mongo_d.Prelude.{◌≡◌, ◌≢◌, some}
use custome_provider_mongo_d.Go.Exec.{panicked}
use custome_provider_mongo_d.Api.Organization.{SecretStorageConfig}
use custome_provider_mongo_d.Organization.Platform.{Platform, External, State}
use custome_provider_mongo_d.Organization.Observe.{observe}
use custome_provider_mongo_d.Organization.Create.{create}
use custome_provider_mongo_d.Organization.Update.{update}
use custome_provider_mongo_d.Organization.Delete.{delete}
use custome_provider_mongo_d.Organization.Panics.Observing.{observe-NeverPanics}
use custome_provider_mongo_d.Organization.Panics.Creating.{create-PanicsNot}
use custome_provider_mongo_d.Organization.Panics.Updating.{update-PanicsNot}
use custome_provider_mongo_d.Organization.Panics.Deleting.{delete-NeverPanics}

-- No handler dereferences a nil pointer, for a resource whose spec has a storage configuration: whatever
-- optional fields are missing besides it, with or without an AWS client, whatever the calls answer, and
-- wherever a handler fails, `Observe`, `Create`, `Update` and `Delete` return or fail, and never panic.
pub handlers_do_not_panic :
    (p : Platform) (c : External) (s : State) (config : SecretStorageConfig)
    → s.cr.spec.for_provider.secret_storage_config ≡ some config
    → ((observe p c s).0 ≢ panicked)
      × ((create p c s).0 ≢ panicked)
      × ((update p c s).0 ≢ panicked)
      × ((delete p c s).0 ≢ panicked)
handlers_do_not_panic p c s config given = (
  (observe-NeverPanics p c).at s,
  (create-PanicsNot p c).at s (record { same = given }),
  (update-PanicsNot p c).at s (record { same = given }),
  (delete-NeverPanics p c).at s,
)
