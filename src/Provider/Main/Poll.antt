-- ===== src/Provider/Main/Poll.antt =====
-- The flag `poll` of cmd/provider/main.go.
use custome_provider_mongo_d.Prelude.{ℕ, ◌≡◌, refl, ap, ◌∙◌, sym}
use custome_provider_mongo_d.Go.Exec.{◌>>◌}
use custome_provider_mongo_d.Provider.Platform.{
  Flags, Platform, ControllerOptions, IgnoresPoll, Start, ask, make_reconciler, get_config,
  new_manager, add_healthz_check, add_readyz_check, start_manager,
}
use custome_provider_mongo_d.Provider.Setup.{
  setup_all, setup_config, setup_organization, setup_vpc_endpoint, each_setup,
  provider_config_controller, organization_controller, vpc_endpoint_controller, add_all_to_scheme,
}
use custome_provider_mongo_d.Provider.Main.{
  run_with, manager_options, controller_options, fatal_if_error, ignore_error,
}

module _ {Runtime : Type 0} (p : Platform Runtime) where
  -- The registration as a function of the options of controller-runtime.
  abbrev setup_with : ControllerOptions → Runtime → Start Runtime (Unit {0})
  setup_with o r = setup_all (record p { for_controller_runtime = λ _. r }) o

  setup_all-setup_with :
      (o : ControllerOptions) → setup_all p o ≡ setup_with o (p.for_controller_runtime o)
  unfolding setup_all each_setup setup_config setup_organization setup_vpc_endpoint
      provider_config_controller organization_controller vpc_endpoint_controller ask make_reconciler
  setup_all-setup_with o = refl

  setup_with-poll :
      (o : ControllerOptions) (r : Runtime) (d : ℕ)
      → setup_with (record o { poll_interval = d }) r ≡ setup_with o r
  unfolding setup_all each_setup setup_config setup_organization setup_vpc_endpoint
      provider_config_controller organization_controller vpc_endpoint_controller ask make_reconciler
  setup_with-poll o r d = refl

  module _ (ignores : IgnoresPoll p) where
    setup_all-poll :
        (o : ControllerOptions) (d : ℕ)
        → setup_all p (record o { poll_interval = d }) ≡ setup_all p o
    setup_all-poll o d =
        setup_all-setup_with (record o { poll_interval = d })
        ∙ (setup_with-poll o (p.for_controller_runtime (record o { poll_interval = d })) d
            ∙ (ap (setup_with o) (ignores.for_controller_runtime-poll o d)
                ∙ sym (setup_all-setup_with o)))

  module _ (f : Flags) where
    -- The start as a function of the registration.
    abbrev run_through : Start Runtime (Unit {0}) → Start Runtime (Unit {0})
    run_through setup = do
      fatal_if_error p "Cannot get API server rest config" (ask p get_config)
      fatal_if_error p "Cannot create controller manager" (ask p (new_manager (manager_options f)))
      fatal_if_error p "Cannot add App Gateway APIs to scheme" (add_all_to_scheme p)
      fatal_if_error p "Cannot setup App Gateway controllers" setup
      ignore_error p (ask p (add_healthz_check "healthz"))
      ignore_error p (ask p (add_readyz_check "readyz"))
      fatal_if_error p "Cannot start controller manager" (ask p start_manager)

  -- Where the options of controller-runtime do not have the poll interval, the run of `main` is the same
  -- whatever poll interval the command line gives: no reconciler is told of it.
  pub run_with-poll :
      (f : Flags) (d : ℕ)
      → IgnoresPoll p
      → run_with p (record f { poll_interval = d }) ≡ run_with p f
  unfolding run_with manager_options controller_options
  run_with-poll f d ignores = ap (run_through f) (setup_all-poll ignores (controller_options f) d)
