-- ===== src/Provider/Main.antt =====
-- `main` of cmd/provider/main.go, from the command line to the start of the manager.
pub mod Plan
pub mod Started
pub mod Poll
use custome_provider_mongo_d.Prelude.{ℕ, ◌*◌, String, []}
use custome_provider_mongo_d.Go.Exec.{pure, wrap, attempt, from_result, ◌>>=◌, ◌>>◌}
use custome_provider_mongo_d.Provider.Platform.{
  Platform, Start, Flags, ManagerOptions, ControllerOptions, get_config, new_manager,
  add_healthz_check, add_readyz_check, start_manager, ask,
}
use custome_provider_mongo_d.Provider.Setup.{setup_all, add_all_to_scheme}

-- `time.Second`
abbrev pub second : ℕ
second = 1000000000

-- Leases are `resourcelock.LeasesResourceLock`.
unfoldable pub manager_options : Flags → ManagerOptions
manager_options f = record {
  client_rate = f.max_reconcile_rate;
  sync_period = f.sync_interval;
  leader_election = f.leader_election;
  leader_election_id = "crossplane-leader-election-provider-mongodb";
  leader_election_resource_lock = "leases";
  lease_duration = 60 * second;
  renew_deadline = 50 * second;
  health_probe_bind_address = ":8081";
}

unfoldable pub controller_options : Flags → ControllerOptions
controller_options f = record {
  max_concurrent_reconciles = f.max_reconcile_rate;
  poll_interval = f.poll_interval;
  global_rate_limiter = f.max_reconcile_rate;
  features = [];
}

module _ {Runtime : Type 0} (p : Platform Runtime) where
  -- `kingpin.FatalIfError` puts the text before the error and exits: nothing follows.
  abbrev pub fatal_if_error : String → Start Runtime (Unit {0}) → Start Runtime (Unit {0})
  fatal_if_error text m = wrap text m

  -- `_ = m`
  abbrev pub ignore_error : Start Runtime (Unit {0}) → Start Runtime (Unit {0})
  ignore_error m = attempt m >> pure tt

  unfoldable pub run_with : Flags → Start Runtime (Unit {0})
  unfolding ◌>>=◌
  run_with f = do
    fatal_if_error "Cannot get API server rest config" (ask p get_config)
    fatal_if_error "Cannot create controller manager" (ask p (new_manager (manager_options f)))
    fatal_if_error "Cannot add App Gateway APIs to scheme" (add_all_to_scheme p)
    fatal_if_error "Cannot setup App Gateway controllers" (setup_all p (controller_options f))
    ignore_error (ask p (add_healthz_check "healthz"))
    ignore_error (ask p (add_readyz_check "readyz"))
    fatal_if_error "Cannot start controller manager" (ask p start_manager)

  -- `kingpin.MustParse` exits where the command line is wrong.
  unfoldable pub main : Start Runtime (Unit {0})
  unfolding ◌>>=◌
  main = (λ h. (from_result p.parsed, h)) >>= run_with
