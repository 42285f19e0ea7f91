-- ===== src/Provider/Main/Started.antt =====
-- When `main` of cmd/provider/main.go starts the manager.
use custome_provider_mongo_d.Provider.Kinds.{GroupVersion, GroupVersionKind}
use custome_provider_mongo_d.Prelude.{
  ◌≡◌, refl, ap, ◌∙◌, Bool, true, false, ◌||◌, List, [], ◌∷◌, ◌++◌, arith, String, Option, none,
  some,
}
use custome_provider_mongo_d.Go.Exec.{ok, from_result, ◌>>=◌, ◌>>◌, wrap, continue}
use custome_provider_mongo_d.Provider.Platform.{
  Call, Flags, Platform, get_config, new_manager, add_to_scheme, new_reconciler, complete,
  add_healthz_check, add_readyz_check, start_manager, Reconciler, Controller, Start,
  make_reconciler, ask, EventFilter, desired_state_changed, for_provider_config, for_managed,
  organization_connector, vpc_endpoint_connector,
}
use custome_provider_mongo_d.Provider.Setup.{
  setup_all, add_all_to_scheme, setup_config, setup_organization, setup_vpc_endpoint, each_setup,
  add_to_schemes, provider_config_reconciler, organization_reconciler, vpc_endpoint_reconciler,
  provider_config_controller, organization_controller, vpc_endpoint_controller,
}
use custome_provider_mongo_d.Provider.Main.{
  run_with, main, manager_options, controller_options, ignore_error, fatal_if_error,
}
use custome_provider_mongo_d.Provider.Main.Plan.{
  Step, required, optional, follow, accepts, Follows, all_required, go_on, follow-append,
  follow-all_required, Follows-ask, Follows-make_reconciler, Follows-ignored, Follows-pure,
  Follows-wrap, Follows-then, accepted,
}

-- A group and a kind of it, by name, at the version `v1alpha1`.
abbrev v1alpha1_of : String → GroupVersion
v1alpha1_of group = record { group = group; version = "v1alpha1" }

abbrev kind_of : String → String → GroupVersionKind
kind_of group kind = record { group_version = v1alpha1_of group; kind = kind }

module _ {Runtime : Type 0} where
  abbrev is_start : Call Runtime → Bool
  is_start get_config = false
  is_start (new_manager o) = false
  is_start (add_to_scheme gs) = false
  is_start (new_reconciler r) = false
  is_start (complete c) = false
  is_start (add_healthz_check name) = false
  is_start (add_readyz_check name) = false
  is_start start_manager = true

  abbrev pub starts : List (Call Runtime) → Bool
  starts [] = false
  starts (c ∷ h) = is_start c || starts h

module _ {Runtime : Type 0} (p : Platform Runtime) where
  starts-follow :
      (cs : List (Call Runtime)) (h : List (Call Runtime))
      → starts cs ≡ false
      → starts h ≡ false
      → starts (follow p (all_required cs) h).0 ≡ false
  starts-follow [] h q e = e
  starts-follow (c ∷ cs) h q e =
      decided (accepted (p.answer h c)) (follow p (all_required cs) (c ∷ h)) (c ∷ h)
        (starts-follow cs (c ∷ h) (ground (arith, q)) (ground (arith, q, e))) (ground (arith, q, e))
    where
      decided :
          (b : Bool) (r : List (Call Runtime) × Bool) (h : List (Call Runtime))
          → starts r.0 ≡ false
          → starts h ≡ false
          → starts (go_on b r h).0 ≡ false
      decided true r h k e = k
      decided false r h k e = e

  -- The calls that have to be accepted, in order, each written out.
  abbrev served :
      String
      → GroupVersionKind
      → List GroupVersionKind
      → Option EventFilter
      → Reconciler
      → Flags
      → List (Call Runtime)
  served name kind watches filter reconciler f =
      new_reconciler reconciler
      ∷ (complete (record {
        named = name;
        options = p.for_controller_runtime (record {
          max_concurrent_reconciles = f.max_reconcile_rate;
          poll_interval = f.poll_interval;
          global_rate_limiter = f.max_reconcile_rate;
          features = [];
        });
        resource = kind;
        watches = watches;
        event_filter = filter;
        reconciler = reconciler;
        rate_limit = f.max_reconcile_rate;
      })
          ∷ [])

  abbrev setup_calls : Flags → List (Call Runtime)
  setup_calls f =
      served
        (p.provider_config_controller_name (p.group_kind "mongodb.swapnil.io" "ProviderConfig"))
        (kind_of "mongodb.swapnil.io" "ProviderConfig")
        (kind_of "mongodb.swapnil.io" "ProviderConfigUsage" ∷ []) none
        (for_provider_config (record {
          config = kind_of "mongodb.swapnil.io" "ProviderConfig";
          usage = kind_of "mongodb.swapnil.io" "ProviderConfigUsage";
          usage_list = kind_of "mongodb.swapnil.io" "ProviderConfigUsageList";
        }))
        f
      ++ served
          (p.managed_controller_name
            (p.group_kind "organization.mongodb.swapnil.io" "Organization"))
          (kind_of "organization.mongodb.swapnil.io" "Organization") [] none
          (for_managed (kind_of "organization.mongodb.swapnil.io" "Organization")
            organization_connector [])
          f
      ++ served
          (p.managed_controller_name (p.group_kind "connectivity.mongodb.swapnil.io" "VPCEndpoint"))
          (kind_of "connectivity.mongodb.swapnil.io" "VPCEndpoint") [] (some desired_state_changed)
          (for_managed (kind_of "connectivity.mongodb.swapnil.io" "VPCEndpoint")
            vpc_endpoint_connector [])
          f

  abbrev pub preparations : Flags → List (Call Runtime)
  preparations f =
      get_config
      ∷ (new_manager (record {
        client_rate = f.max_reconcile_rate;
        sync_period = f.sync_interval;
        leader_election = f.leader_election;
        leader_election_id = "crossplane-leader-election-provider-mongodb";
        leader_election_resource_lock = "leases";
        lease_duration = 60000000000;
        renew_deadline = 50000000000;
        health_probe_bind_address = ":8081";
      })
          ∷ (add_to_scheme (
                v1alpha1_of "mongodb.swapnil.io"
                ∷ v1alpha1_of "organization.mongodb.swapnil.io"
                ∷ v1alpha1_of "connectivity.mongodb.swapnil.io"
                ∷ [])
              ∷ setup_calls f))

  abbrev finish : List (Step Runtime)
  finish =
      optional (add_healthz_check "healthz")
      ∷ (optional (add_readyz_check "readyz") ∷ (required start_manager ∷ []))

  Follows-register :
      (r : Reconciler) (c : Controller Runtime)
      → Follows p
          (required (new_reconciler r) ∷ (required (complete c) ∷ []))
          (make_reconciler p r >> ask p (complete c))
  Follows-register r c =
      Follows-then p (required (new_reconciler r) ∷ []) (required (complete c) ∷ [])
        (make_reconciler p r) (ask p (complete c)) (Follows-make_reconciler p r)
        (Follows-ask p (complete c))

  -- A call that may not fail, before the rest.
  Follows-fatal :
      (text : String) (c : Call Runtime) (rest : List (Step Runtime)) (n : Start Runtime (Unit {0}))
      → Follows p rest n
      → Follows p (required c ∷ rest) (wrap text (ask p c) >> n)
  Follows-fatal text c rest n k =
      Follows-then p (required c ∷ []) rest (wrap text (ask p c)) n
        (Follows-wrap p text (required c ∷ []) (ask p c) (Follows-ask p c)) k

  Follows-setup_all :
      (f : Flags) → Follows p (all_required (setup_calls f)) (setup_all p (controller_options f))
  unfolding setup_all each_setup setup_config setup_organization setup_vpc_endpoint
      provider_config_controller organization_controller vpc_endpoint_controller controller_options
  Follows-setup_all f =
      Follows-then p _ _ _ _
        (Follows-register provider_config_reconciler
          (provider_config_controller p (controller_options f)))
        (Follows-then p _ _ _ _
          (Follows-register organization_reconciler
            (organization_controller p (controller_options f)))
          (Follows-then p _ _ _ _
            (Follows-register vpc_endpoint_reconciler
              (vpc_endpoint_controller p (controller_options f)))
            (Follows-pure p)))

  Follows-finish : Follows p finish (
      ignore_error p (ask p (add_healthz_check "healthz"))
      >> (ignore_error p (ask p (add_readyz_check "readyz"))
          >> fatal_if_error p "Cannot start controller manager" (ask p start_manager)))
  Follows-finish = Follows-then p _ _ _ _ (Follows-ignored p (add_healthz_check "healthz")) (
      Follows-then p _ _ _ _ (Follows-ignored p (add_readyz_check "readyz"))
        (Follows-wrap p "Cannot start controller manager" _ _ (Follows-ask p start_manager)))

  Follows-run_with :
      (f : Flags) → Follows p (all_required (preparations f) ++ finish) (run_with p f)
  unfolding run_with add_all_to_scheme manager_options
  Follows-run_with f = Follows-fatal "Cannot get API server rest config" get_config _ _ (
      Follows-fatal "Cannot create controller manager" (new_manager (manager_options f)) _ _ (
        Follows-fatal "Cannot add App Gateway APIs to scheme" (add_to_scheme add_to_schemes) _ _ (
          Follows-then p (all_required (setup_calls f)) finish _ _
            (Follows-wrap p "Cannot setup App Gateway controllers" _ _ (Follows-setup_all f))
            Follows-finish)))

  -- The last steps ask for the start, whatever is answered.
  starts-finish : (h : List (Call Runtime)) → starts (follow p finish h).0 ≡ true
  starts-finish h =
      decided (accepted (p.answer checked start_manager)) (start_manager ∷ checked) refl
    where
      checked : List (Call Runtime)
      checked = add_readyz_check "readyz" ∷ (add_healthz_check "healthz" ∷ h)

      decided :
          (b : Bool) (l : List (Call Runtime))
          → starts l ≡ true
          → starts (go_on b (l, true) l).0 ≡ true
      decided true l e = e
      decided false l e = e

  starts-plan :
      (cs : List (Call Runtime))
      → starts cs ≡ false
      → starts (follow p (all_required cs ++ finish) []).0 ≡ accepts p cs []
  starts-plan cs q =
      ap (λ r. starts r.0) (follow-append p (all_required cs) finish [])
      ∙ (decided (follow p (all_required cs) []) (starts-follow cs [] q refl)
          ∙ follow-all_required p cs [])
    where
      decided :
          (r : List (Call Runtime) × Bool)
          → starts r.0 ≡ false
          → starts (go_on r.1 (follow p finish r.0) r.0).0 ≡ r.1
      decided (h, true) e = starts-finish h
      decided (h, false) e = e

  -- Where the command line is right, `main` asks the manager to start exactly if the configuration, the
  -- manager, the registration of the three groups of types, and then a reconciler and a controller for
  -- each of ProviderConfig, Organization and VPCEndpoint were accepted, in this order. The answers to
  -- the health checks play no part.
  pub starts-main :
      (f : Flags) → p.parsed ≡ ok f → starts (main p []).1 ≡ accepts p (preparations f) []
  unfolding main ◌>>=◌
  starts-main f parsed =
      ap (λ r. starts (continue (from_result r, []) (run_with p)).1) parsed
      ∙ (ap (λ r. starts r.0) ((Follows-run_with f).at []) ∙ starts-plan (preparations f) refl)
