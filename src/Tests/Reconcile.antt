-- ===== src/Tests/Reconcile.antt =====
-- The handlers and steps of the Organization controller after one another in the concrete environment.
use custome_provider_mongo_d.Mongo.Http.{Transport, response, make_request, do_request}
use custome_provider_mongo_d.Mongo.Client.{
  new_service, add_ips_to_api_key_access_list, remove_ip_from_api_key_access_list,
}
use custome_provider_mongo_d.Prelude.{
  ℕ, suc, ◌≤◌, ◌∙◌, ◌==◌, inl, nat_eq, if◌then◌else◌, arith, ◌≡◌, refl, ap, true, none, [], ◌∷◌,
  List, String, some, eq_iff,
}
use custome_provider_mongo_d.Go.Exec.{done, ok}
use custome_provider_mongo_d.Go.Json.{read_field, malformed}
use custome_provider_mongo_d.Api.Organization.{Organization}
use custome_provider_mongo_d.Organization.Platform.{
  Call, atlas, create_organization, delete_organization, call, Platform, External, Secret, IsLawful,
}
use custome_provider_mongo_d.Organization.Trace.{Only}
use custome_provider_mongo_d.Organization.Observe.Calls.{is_observing}
use custome_provider_mongo_d.Organization.Create.{finish_creation, create, ConnectionDetails}
use custome_provider_mongo_d.Organization.Delete.{delete}
use custome_provider_mongo_d.Organization.Secrets.{marshal_credentials, unmarshal_credentials}
use custome_provider_mongo_d.Organization.Connect.{connect}
use custome_provider_mongo_d.Organization.Connect.Region.{NeedsAws, connect-finish_creation}
use custome_provider_mongo_d.Organization.Reconcile.Invariant.{Reachable-consistent, creations_le}
use custome_provider_mongo_d.Prelude.Lists.{member}
use custome_provider_mongo_d.Organization.Update.{sync_ips}
use custome_provider_mongo_d.Organization.Reconcile.{
  IsHonest, counted, creations, read_again, KeepsStatus, consistent, started, created, deleted,
}
use custome_provider_mongo_d.Organization.Update.Refinement.{
  AddressSet, Accepts, Represents, remote, sync_ips-Represents,
}
use custome_provider_mongo_d.Tests.Sample.{
  service, entry, platform, usual, with_aws, start, resource, new_resource, closed, atlas_org, key,
  parent, aws_credentials, secret_credentials, observation, guarded,
}

ok_injective : (a b : Organization) → ok b ≡ ok a → a ≡ b
ok_injective a b h = cc h

usual-KeepsStatus : KeepsStatus usual
usual-KeepsStatus = record {
  same_status =
      λ h o updated same. ap (λ (x : Organization). x.status) (ok_injective updated o same);
}

Reachable-consistent_example :
    consistent
      (delete usual with_aws (create usual with_aws (start new_resource)).1).1.cr.status.at_provider
    ≡ true
Reachable-consistent_example =
    Reachable-consistent usual usual-KeepsStatus _
      (deleted with_aws _ (created with_aws _ (started (start new_resource) refl refl)))

abbrev provider_secret : Secret
provider_secret = record {
  name = "atlas";
  namespace = "crossplane-system";
  labels = [];
  secret_data = ("credentials", marshal_credentials parent) ∷ [];
}

abbrev configured : Platform
configured = platform (ok tt) (ok aws_credentials) provider_secret

abbrev without_aws : External
without_aws = record { credentials = parent; aws_region = none }

-- A resource without a storage configuration.
abbrev default_resource : Organization
default_resource = resource "" none closed observation

connect_run : (connect configured (start default_resource)).0 ≡ done without_aws
unfolding connect marshal_credentials unmarshal_credentials call read_field
connect_run = refl

connect-finish_creation_example :
    ((d : ConnectionDetails)
      → (finish_creation configured without_aws atlas_org key (start default_resource)).0 ≡ done d
      → ⊥)
    × Only is_observing []
        (finish_creation configured without_aws atlas_org key (start default_resource)).1
unfolding NeedsAws
connect-finish_creation_example =
    connect-finish_creation configured (start default_resource) "default"
      (record { namespace = ""; spec = record { credentials = secret_credentials } }) without_aws
      refl refl refl refl connect_run (start default_resource) atlas_org key tt

abbrev accepting : Transport
accepting = record { refused = λ r. none; send = λ r. response 204 malformed; is_time = λ s. true }

-- The key may be used from one address, which is not desired any more.
abbrev outdated_resource : Organization
outdated_resource = resource "5f1a" none guarded (record observation {
  provisioned_ips = entry "10.0.0.9" ∷ [];
  ip_access_entry_count = 1;
  last_ip_access_update = some 0;
})

abbrev first_set : AddressSet
first_set = member ("10.0.0.9" ∷ [])

-- The Atlas client of the provider, over a server that accepts everything without content.
abbrev served : Platform
served = record usual { service = λ h creds. new_service accepting }

served-Accepts : Accepts served "5f1a" "key-id" parent
unfolding new_service add_ips_to_api_key_access_list remove_ip_from_api_key_access_list make_request
    do_request
served-Accepts = record {
  additions = λ h inputs. refl;
  removals = λ h ip given. ground (arith, given, eq_iff ip "");
}

served-IsLawful : IsLawful served
served-IsLawful = record {
  get-set_external_name = λ m name. refl;
  name-set_external_name = λ m name. refl;
  member-range_keys = λ h m x. refl;
}

first_set-Represents : Represents served "5f1a" "key-id" first_set (start outdated_resource)
unfolding Represents remote
first_set-Represents = λ x. refl

sync_ips-Represents_example :
    Represents served "5f1a" "key-id" first_set
      (sync_ips served with_aws parent "5f1a" "key-id" 0 (start outdated_resource)).1
    × ((x : String)
        → remote served "5f1a" "key-id" first_set
            (sync_ips served with_aws parent "5f1a" "key-id" 0 (start outdated_resource)).1.calls
            x
          ≡ member ("10.0.0.1" ∷ ("10.0.0.2" ∷ [])) x)
sync_ips-Represents_example =
    sync_ips-Represents served "5f1a" "key-id" first_set parent served-Accepts with_aws 0
      (start outdated_resource) served-IsLawful first_set-Represents refl

-- The organizations of a name that were asked for since the last deletion.
abbrev asked_by : String → Call → ℕ → ℕ
asked_by name (atlas creds (create_organization input)) n = if input.name == name then suc n else n
asked_by name (atlas creds (delete_organization id)) n = 0
asked_by name c n = n

asked : String → List Call → ℕ
asked name [] = 0
asked name (c ∷ h) = asked_by name c (asked name h)

-- Atlas accepts every creation and deletion, and a search by name finds what was created.
abbrev finding : Platform
finding = record usual {
  service = λ h creds. record (service (ok tt)) {
    get_organization_by_name =
        λ name. if nat_eq (asked name h) 0 then ok none else ok (some atlas_org);
  };
}

counted-asked_by :
    (name : String) (c : Call) (h : List Call) (n : ℕ)
    → counted finding name c h n ≡ asked_by name c n
counted-asked_by name c h n = ground arith

creations-asked : (name : String) (h : List Call) → creations finding name h ≡ asked name h
unfolding creations asked
creations-asked name [] = refl
creations-asked name (c ∷ h) =
    counted-asked_by name c h (creations finding name h)
    ∙ ap (asked_by name c) (creations-asked name h)

finding-IsHonest : IsHonest finding
finding-IsHonest = record {
  none_created = λ h creds name unknown. ground (arith, creations-asked name h, unknown);
}

finding-KeepsStatus : KeepsStatus finding
finding-KeepsStatus = record {
  same_status =
      λ h o updated same. ap (λ (x : Organization). x.status) (ok_injective updated o same);
}

-- The resource is created twice, the second time as it was before.
creations_le_example :
    creations finding "acme"
      (create finding with_aws
        (record (create finding with_aws (start new_resource)).1 { cr = new_resource })).1.calls
    ≤ 1
creations_le_example =
    creations_le finding finding-KeepsStatus _
      (created with_aws _ (
        read_again _ new_resource new_resource
          (created with_aws _ (started (start new_resource) refl refl)) (inl refl)))
      finding-IsHonest "acme"
