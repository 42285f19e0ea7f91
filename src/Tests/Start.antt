-- ===== src/Tests/Start.antt =====
-- The start of the provider in a concrete environment.
use custome_provider_mongo_d.Prelude.{ℕ, ◌≡◌, refl, ◌<>◌, true, false, Option, none, some, List, []}
use custome_provider_mongo_d.Go.Fault.{Fault, plain}
use custome_provider_mongo_d.Go.Exec.{ok}
use custome_provider_mongo_d.Provider.Platform.{
  Call, Flags, Platform, IgnoresPoll, get_config, new_manager, add_to_scheme, new_reconciler,
  complete, add_healthz_check, add_readyz_check, start_manager, for_managed, for_provider_config,
  organization_connector, vpc_endpoint_connector,
}
use custome_provider_mongo_d.Provider.Main.{main, run_with}
use custome_provider_mongo_d.Provider.Main.Started.{starts, starts-main}
use custome_provider_mongo_d.Provider.Main.Poll.{run_with-poll}

abbrev hourly : Flags
hourly = record {
  debug = false;
  leader_election = false;
  sync_interval = 3600000000000;
  poll_interval = 60000000000;
  max_reconcile_rate = 10;
}

-- The health check is refused.
abbrev only_health_fails : List (Call ℕ) → Call ℕ → Option Fault
only_health_fails h get_config = none
only_health_fails h (new_manager o) = none
only_health_fails h (add_to_scheme gs) = none
only_health_fails h (new_reconciler r) = none
only_health_fails h (complete c) = none
only_health_fails h (add_healthz_check name) = some (plain "unable to add new checker")
only_health_fails h (add_readyz_check name) = none
only_health_fails h start_manager = none

-- The kind of the VPC endpoints is refused.
abbrev endpoints_fail : List (Call ℕ) → Call ℕ → Option Fault
endpoints_fail h get_config = none
endpoints_fail h (new_manager o) = none
endpoints_fail h (add_to_scheme gs) = none
endpoints_fail h (new_reconciler (for_provider_config k)) = none
endpoints_fail h (new_reconciler (for_managed k organization_connector l)) = none
endpoints_fail h (new_reconciler (for_managed k vpc_endpoint_connector l)) =
    some (plain "no kind is registered")
endpoints_fail h (complete c) = none
endpoints_fail h (add_healthz_check name) = none
endpoints_fail h (add_readyz_check name) = none
endpoints_fail h start_manager = none

abbrev cluster : (List (Call ℕ) → Call ℕ → Option Fault) → Platform ℕ
cluster answer = record {
  parsed = ok hourly;
  answer = answer;
  for_controller_runtime = λ o. o.max_concurrent_reconciles;
  group_kind = λ group kind. kind <> ("." <> group);
  provider_config_controller_name = λ kind. "providerconfig/" <> kind;
  managed_controller_name = λ kind. "managed/" <> kind;
}

starts-main_example : starts (main (cluster only_health_fails) []).1 ≡ true
starts-main_example = starts-main (cluster only_health_fails) hourly refl

main_without_endpoints : starts (main (cluster endpoints_fail) []).1 ≡ false
main_without_endpoints = starts-main (cluster endpoints_fail) hourly refl

cluster-IgnoresPoll : IgnoresPoll (cluster only_health_fails)
cluster-IgnoresPoll = record { for_controller_runtime-poll = λ o d. refl }

run_with-poll_example :
    run_with (cluster only_health_fails) (record hourly { poll_interval = 1000000000 })
    ≡ run_with (cluster only_health_fails) hourly
run_with-poll_example =
    run_with-poll (cluster only_health_fails) hourly 1000000000 cluster-IgnoresPoll
