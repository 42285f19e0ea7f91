-- ===== src/Provider/Setup.antt =====
-- The registration of the controllers: `Setup` of internal/controller/mongodb.go and of the three
-- packages beside it, and `AddToScheme` of apis/mongodb.go.
use custome_provider_mongo_d.Prelude.{String, none, some, List, [], ◌∷◌}
use custome_provider_mongo_d.Go.Exec.{pure, ◌>>=◌, ◌>>◌}
use custome_provider_mongo_d.Provider.Kinds.{
  GroupVersion, GroupVersionKind, provider_group, organization_group, connectivity_group,
  provider_config_kind, provider_config_usage_kind, provider_config_usage_list_kind,
  organization_kind, vpc_endpoint_kind,
}
use custome_provider_mongo_d.Provider.Platform.{
  Platform, Start, Controller, ControllerOptions, Reconciler, for_provider_config, for_managed,
  organization_connector, vpc_endpoint_connector, desired_state_changed, add_to_scheme, complete,
  ask, make_reconciler,
}

-- `AddToSchemes`, after the package's `init`; the `AddToScheme` of a group is given by the group.
abbrev pub add_to_schemes : List GroupVersion
add_to_schemes = provider_group ∷ (organization_group ∷ (connectivity_group ∷ []))

abbrev pub provider_config_reconciler : Reconciler
provider_config_reconciler = for_provider_config (record {
  config = provider_config_kind;
  usage = provider_config_usage_kind;
  usage_list = provider_config_usage_list_kind;
})

-- Without initializers.
abbrev pub organization_reconciler : Reconciler
organization_reconciler = for_managed organization_kind organization_connector []

abbrev pub vpc_endpoint_reconciler : Reconciler
vpc_endpoint_reconciler = for_managed vpc_endpoint_kind vpc_endpoint_connector []

module _ {Runtime : Type 0} (p : Platform Runtime) where
  -- `schema.GroupKind{Group: Group, Kind: kind}.String()`
  abbrev group_kind_of : GroupVersionKind → String
  group_kind_of k = p.group_kind k.group_version.group k.kind

  unfoldable pub provider_config_controller : ControllerOptions → Controller Runtime
  provider_config_controller o = record {
    named = p.provider_config_controller_name (group_kind_of provider_config_kind);
    options = p.for_controller_runtime o;
    resource = provider_config_kind;
    watches = provider_config_usage_kind ∷ [];
    event_filter = none;
    reconciler = provider_config_reconciler;
    rate_limit = o.global_rate_limiter;
  }

  unfoldable pub organization_controller : ControllerOptions → Controller Runtime
  organization_controller o = record {
    named = p.managed_controller_name (group_kind_of organization_kind);
    options = p.for_controller_runtime o;
    resource = organization_kind;
    watches = [];
    event_filter = none;
    reconciler = organization_reconciler;
    rate_limit = o.global_rate_limiter;
  }

  unfoldable pub vpc_endpoint_controller : ControllerOptions → Controller Runtime
  vpc_endpoint_controller o = record {
    named = p.managed_controller_name (group_kind_of vpc_endpoint_kind);
    options = p.for_controller_runtime o;
    resource = vpc_endpoint_kind;
    watches = [];
    event_filter = some desired_state_changed;
    reconciler = vpc_endpoint_reconciler;
    rate_limit = o.global_rate_limiter;
  }

  -- `config.Setup`
  unfoldable pub setup_config : ControllerOptions → Start Runtime (Unit {0})
  unfolding ◌>>=◌
  setup_config o = do
    make_reconciler p provider_config_reconciler
    ask p (complete (provider_config_controller o))

  -- `organization.Setup`
  unfoldable pub setup_organization : ControllerOptions → Start Runtime (Unit {0})
  unfolding ◌>>=◌
  setup_organization o = do
    make_reconciler p organization_reconciler
    ask p (complete (organization_controller o))

  -- `vpcendpoint.Setup`
  unfoldable pub setup_vpc_endpoint : ControllerOptions → Start Runtime (Unit {0})
  unfolding ◌>>=◌
  setup_vpc_endpoint o = do
    make_reconciler p vpc_endpoint_reconciler
    ask p (complete (vpc_endpoint_controller o))

  -- The functions in the order of the loop, up to the first that returns an error.
  unfoldable pub each_setup :
      List (ControllerOptions → Start Runtime (Unit {0}))
      → ControllerOptions
      → Start Runtime (Unit {0})
  unfolding ◌>>=◌
  each_setup [] o = pure tt
  each_setup (setup ∷ rest) o = setup o >> each_setup rest o

  unfoldable pub setup_all : ControllerOptions → Start Runtime (Unit {0})
  setup_all = each_setup (setup_config ∷ (setup_organization ∷ (setup_vpc_endpoint ∷ [])))

  -- `AddToScheme`, whose loop over the functions is the library's.
  unfoldable pub add_all_to_scheme : Start Runtime (Unit {0})
  add_all_to_scheme = ask p (add_to_scheme add_to_schemes)
