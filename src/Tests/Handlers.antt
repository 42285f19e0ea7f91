-- ===== src/Tests/Handlers.antt =====
-- The theorems about the handlers at concrete inputs.
use custome_provider_mongo_d.Prelude.{
  ◌≡◌, ◌≢◌, refl, ◌⊎◌, ◌↔◌, true, false, not, ◌&&◌, String, none, List, [], ◌∷◌, arith, eq_iff,
}
use custome_provider_mongo_d.Prelude.Lists.{member}
use custome_provider_mongo_d.Prelude.Text.{lower_contains, contains_codes, contains}
use custome_provider_mongo_d.Go.Exec.{err, done, failed}
use custome_provider_mongo_d.Go.Fault.{error_text, Fault, wrapped, foreign, is_not_found_error}
use custome_provider_mongo_d.Organization.Platform.{Platform, call}
use custome_provider_mongo_d.Organization.Create.Once.{IsNew, create-IsNew}
use custome_provider_mongo_d.Organization.Create.Order.{IsOrdered, finish_creation-IsOrdered}
use custome_provider_mongo_d.Api.Organization.{Organization}
use custome_provider_mongo_d.Organization.Trace.{Only}
use custome_provider_mongo_d.Organization.Errors.Transient.{still_exists}
use custome_provider_mongo_d.Organization.Create.{finish_creation, create}
use custome_provider_mongo_d.Organization.Delete.Failure.{is_keeping, delete_failed-Only}
use custome_provider_mongo_d.Organization.Observe.Calls.{is_observing, observe-Only}
use custome_provider_mongo_d.Organization.Names.{k8s_secret_name}
use custome_provider_mongo_d.Organization.Status.Saved.{IsSaved, persist_external_name-IsSaved}
use custome_provider_mongo_d.Organization.Errors.{is_atlas_transient_or_opaque_delete_err}
use custome_provider_mongo_d.Organization.Update.Calls.{is_updating, update-Only}
use custome_provider_mongo_d.Organization.Update.{update, migrate, sync_ips, migrate_to_kubernetes}
use custome_provider_mongo_d.Tests.Sample.{
  usual, platform, usual-IsLawful, with_aws, start, new_resource, settled_resource, atlas_org, key,
  parent, stored, resource, closed, observation,
}
use custome_provider_mongo_d.Organization.Observe.{is_up_to_date, ips_match, observe}
use custome_provider_mongo_d.Organization.Update.Migration.{
  aws_deletions, aws_deletions-migrate_to_kubernetes,
}
use custome_provider_mongo_d.Organization.Delete.{
  precheck, delete, cleanup_ips, record_attempt, delete_with_org_key, fail_attempt, save_status,
  is_secret_missing,
}
use custome_provider_mongo_d.Organization.Observe.Storage.{IsSettled, migrate-observe}
use custome_provider_mongo_d.Organization.Secrets.{fetch_org_credentials}
use custome_provider_mongo_d.Organization.Status.{
  with_external_name, PersistMessages, persist_external_name, update_status_with_retry,
}
use custome_provider_mongo_d.Organization.Observe.Settled.{IsSynced, is_up_to_date_iff}
use custome_provider_mongo_d.Organization.Update.Addresses.{
  sync_ips_hides_failures, removals, addition, sync_ips_requests,
}

create-IsNew_example :
    IsNew usual with_aws (start new_resource)
    ⊎ Only is_observing [] (create usual with_aws (start new_resource)).1
create-IsNew_example = create-IsNew usual with_aws (start new_resource)

finish_creation-IsOrdered_example :
    IsOrdered [] (finish_creation usual with_aws atlas_org key (start new_resource)).1
finish_creation-IsOrdered_example =
    finish_creation-IsOrdered usual with_aws (start new_resource) atlas_org key

observe-Only_example : Only is_observing [] (observe usual with_aws (start settled_resource)).1
observe-Only_example = observe-Only usual with_aws (start settled_resource)

is_up_to_date_iff_example : (is_up_to_date settled_resource ≡ true) ↔ IsSynced settled_resource
is_up_to_date_iff_example = is_up_to_date_iff settled_resource

settled_resource-IsSettled : IsSettled usual settled_resource
settled_resource-IsSettled = record {
  named = λ e. ground (arith, eq_iff "5f1a" "", e);
  live = refl;
}

migrate-observe_example :
    migrate usual with_aws "5f1a" parent (observe usual with_aws (start settled_resource)).1
    ≡ (done false, (observe usual with_aws (start settled_resource)).1)
migrate-observe_example =
    migrate-observe usual with_aws (start settled_resource) "5f1a" parent settled_resource-IsSettled

-- The Kubernetes secret of the resource is not called like the AWS one.
names_differ : k8s_secret_name settled_resource ≢ "product/mongodb/acme"
unfolding k8s_secret_name
names_differ = λ e. ground (arith, eq_iff "acme-mongodb-credentials" "product/mongodb/acme", e)

aws_deletions-migrate_to_kubernetes_example :
    member
      (aws_deletions
        (migrate_to_kubernetes usual with_aws "AWS" parent (start settled_resource)).1.calls)
      "product/mongodb/acme"
    ≡ member (aws_deletions []) "product/mongodb/acme"
aws_deletions-migrate_to_kubernetes_example =
    aws_deletions-migrate_to_kubernetes usual with_aws (start settled_resource) "AWS" parent
      "product/mongodb/acme" names_differ

abbrev open_resource : Organization
open_resource = resource "5f1a" none closed observation

sync_ips_requests_example :
    (to_add to_remove : List String) × ((sync_ips usual with_aws parent "5f1a" "key-id" 0
        (start settled_resource)).1.calls
      ≡ removals parent "5f1a" "key-id" to_remove (addition parent "5f1a" "key-id" to_add []))
    × ((x : String)
        → member to_add x ≡ (member ("10.0.0.1" ∷ "10.0.0.2" ∷ []) x && not (member [] x)))
    × ((x : String)
        → member to_remove x ≡ (member [] x && not (member ("10.0.0.1" ∷ "10.0.0.2" ∷ []) x)))
sync_ips_requests_example =
    sync_ips_requests usual with_aws parent "5f1a" "key-id" 0 (start settled_resource)
      usual-IsLawful

sync_ips_hides_failures_example :
    ((sync_ips usual with_aws parent "5f1a" "key-id" 0 (start settled_resource)).0 ≡ done true)
    × ((sync_ips usual with_aws parent "5f1a" "key-id" 0 (start settled_resource)
          ).1.cr.status.at_provider.ip_access_error
        ≡ "")
    × (ips_match settled_resource.spec.for_provider.network_access_config.ips
          (sync_ips usual with_aws parent "5f1a" "key-id" 0 (start settled_resource)
            ).1.cr.status.at_provider.provisioned_ips
        ≡ true)
sync_ips_hides_failures_example =
    sync_ips_hides_failures usual with_aws parent "5f1a" "key-id" 0 (start settled_resource)

abbrev messages : PersistMessages
messages = record { fetching = "f"; after_conflict = "a"; refetching = "r"; updating = "u" }

abbrev saved : Organization
saved = with_external_name usual settled_resource "5f1a"

persist_external_name-IsSaved_example :
    IsSaved usual "5f1a" saved (persist_external_name usual messages "5f1a" (start new_resource)).1
unfolding with_external_name persist_external_name call
persist_external_name-IsSaved_example =
    persist_external_name-IsSaved usual usual-IsLawful messages "5f1a" (start new_resource) saved
      refl

abbrev forbidden : Platform
forbidden = platform (err (still_exists "5f1a")) (err (foreign "access denied")) stored

abbrev denied : Fault
denied = wrapped "failed to fetch org credentials for deletion" (foreign "access denied")

-- The check finds the organization, and its credentials cannot be read.
delete-denied : (delete forbidden with_aws (start open_resource)).0 ≡ failed denied
unfolding delete cleanup_ips record_attempt precheck delete_with_org_key fail_attempt save_status
    update_status_with_retry fetch_org_credentials is_secret_missing contains contains_codes
    is_atlas_transient_or_opaque_delete_err lower_contains error_text is_not_found_error call
delete-denied = refl

delete_failed-Only_example : Only is_keeping [] (delete forbidden with_aws (start open_resource)).1
delete_failed-Only_example =
    delete_failed-Only forbidden with_aws (start open_resource) denied delete-denied

update-Only_example : Only is_updating [] (update usual with_aws (start settled_resource)).1
update-Only_example = update-Only usual with_aws (start settled_resource)
