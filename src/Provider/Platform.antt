-- ===== src/Provider/Platform.antt =====
-- What cmd/provider/main.go and the Setup functions of internal/controller call: the command line,
-- the manager of controller-runtime, and the reconcilers of crossplane-runtime.
use custome_provider_mongo_d.Prelude.{ℕ, String, Bool, Option, none, some, List, ◌∷◌, ◌≡◌}
use custome_provider_mongo_d.Go.Fault.{Fault}
use custome_provider_mongo_d.Go.Exec.{Outcome, done, failed, panicked, Result, Exec}
use custome_provider_mongo_d.Provider.Kinds.{GroupVersion, GroupVersionKind}

-- The flags. Durations are in nanoseconds.
pub record Flags : Type 0 where
  pub debug : Bool
  pub leader_election : Bool
  pub sync_interval : ℕ
  pub poll_interval : ℕ
  pub max_reconcile_rate : ℕ

-- The fields of `ctrl.Options` that are set, and the rate that limits the client.
pub record ManagerOptions : Type 0 where
  pub client_rate : ℕ
  pub sync_period : ℕ
  pub leader_election : Bool
  pub leader_election_id : String
  pub leader_election_resource_lock : String
  pub lease_duration : ℕ
  pub renew_deadline : ℕ
  pub health_probe_bind_address : String

-- `controller.Options`, but for the logger. The limiter is given by its rate.
pub record ControllerOptions : Type 0 where
  pub max_concurrent_reconciles : ℕ
  pub poll_interval : ℕ
  pub global_rate_limiter : ℕ
  pub features : List String

-- `resource.ProviderConfigKinds`
pub record ProviderConfigKinds : Type 0 where
  pub config : GroupVersionKind
  pub usage : GroupVersionKind
  pub usage_list : GroupVersionKind

-- The two types `connector`, each of a package of its own.
pub data Connector : Type 0 where
  organization_connector : Connector
  vpc_endpoint_connector : Connector

-- What `providerconfig.NewReconciler` and `managed.NewReconciler` are given, but for logger and recorder.
pub data Reconciler : Type 0 where
  for_provider_config : ProviderConfigKinds → Reconciler
  for_managed : GroupVersionKind → Connector → List String → Reconciler

pub data EventFilter : Type 0 where
  desired_state_changed : EventFilter

-- A controller as the builder is told of it. `Runtime` is controller-runtime's type of options.
pub record Controller (Runtime : Type 0) : Type 0 where
  pub named : String
  pub options : Runtime
  pub resource : GroupVersionKind
  pub watches : List GroupVersionKind
  pub event_filter : Option EventFilter
  pub reconciler : Reconciler
  pub rate_limit : ℕ

pub data Call (Runtime : Type 0) : Type 0 where
  get_config : Call Runtime
  new_manager : ManagerOptions → Call Runtime
  add_to_scheme : List GroupVersion → Call Runtime
  new_reconciler : Reconciler → Call Runtime
  complete : Controller Runtime → Call Runtime
  add_healthz_check : String → Call Runtime
  add_readyz_check : String → Call Runtime
  start_manager : Call Runtime

-- `answer` gives the error of a call after the calls before it, or `none`. For a new reconciler an
-- error is a panic, since these functions of the library return none. Texts are the library's.
pub record Platform (Runtime : Type 0) : Type 0 where
  pub parsed : Result Flags
  pub answer : List (Call Runtime) → Call Runtime → Option Fault
  pub for_controller_runtime : ControllerOptions → Runtime
  pub group_kind : String → String → String
  pub provider_config_controller_name : String → String
  pub managed_controller_name : String → String

-- The options of controller-runtime do not have the poll interval, which is crossplane-runtime's.
pub record IgnoresPoll {Runtime : Type 0} (p : Platform Runtime) : Type 0 where
  pub for_controller_runtime-poll :
      (o : ControllerOptions) (interval : ℕ)
      → p.for_controller_runtime (record o { poll_interval = interval })
        ≡ p.for_controller_runtime o

-- The calls so far are the state, latest first.
abbrev pub Start : Type 0 → Type 0 → Type 0
Start Runtime A = Exec (List (Call Runtime)) A

abbrev pub returned : Option Fault → Outcome (Unit {0})
returned none = done tt
returned (some e) = failed e

abbrev pub made : Option Fault → Outcome (Unit {0})
made none = done tt
made (some e) = panicked

module _ {Runtime : Type 0} (p : Platform Runtime) where
  unfoldable pub ask : Call Runtime → Start Runtime (Unit {0})
  ask c h = (returned (p.answer h c), c ∷ h)

  unfoldable pub make_reconciler : Reconciler → Start Runtime (Unit {0})
  make_reconciler r h = (made (p.answer h (new_reconciler r)), new_reconciler r ∷ h)
