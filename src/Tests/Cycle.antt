-- ===== src/Tests/Cycle.antt =====
-- `Observe`, `Update` and `Observe` in the concrete environment.
use custome_provider_mongo_d.Organization.Update.Stuck.{
  IsStuck, KeepsSent, rounds, enforcement_stays_unsettled,
}
use custome_provider_mongo_d.Mongo.Payload.{matching_key}
use custome_provider_mongo_d.Go.Struct.{into_field, read_slice}
use custome_provider_mongo_d.Mongo.Http.{
  Transport, HttpRequest, HttpReply, response, make_request, do_request, make_v2_request,
}
use custome_provider_mongo_d.Mongo.Client.{
  new_service, find_api_key_id, set_org_admin_api_ip_enforcement, update_org_api_key_description,
  update_org_api_key_roles, add_ips_to_api_key_access_list,
}
use custome_provider_mongo_d.Organization.Delete.{
  delete, cleanup_ips, record_attempt, precheck, cleanup_secrets_after_delete, delete_stored_secret,
  save_status, remove_finalizers,
}
use custome_provider_mongo_d.Organization.Delete.Confirmations.{confirmations}
use custome_provider_mongo_d.Organization.Delete.Confirmed.{IsClear, delete_done-confirmations}
use custome_provider_mongo_d.Go.Fault.{Fault}
use custome_provider_mongo_d.Prelude.Text.{is_blank}
use custome_provider_mongo_d.Organization.Network.{resolve_api_key_id}
use custome_provider_mongo_d.Organization.Status.{update_status_with_retry}
use custome_provider_mongo_d.Organization.Names.{
  k8s_secret_name, k8s_secret_namespace, equal_string_sets,
}
use custome_provider_mongo_d.Prelude.{
  ◌≡◌, refl, inl, true, [], ◌∷◌, String, eq_iff, arith, ◌≢◌, ◌<◌, ◌==◌, if◌then◌else◌, none, false,
}
use custome_provider_mongo_d.Go.Exec.{done, ok, failed}
use custome_provider_mongo_d.Go.Json.{
  read_field, Document, json, obj, arr, cons, nil, field, end, str, malformed, read_fields,
  equal_fold,
}
use custome_provider_mongo_d.Api.Organization.{Organization}
use custome_provider_mongo_d.Organization.Platform.{Platform, Secret, call, State}
use custome_provider_mongo_d.Organization.Secrets.{
  marshal_credentials, unmarshal_credentials, fetch_org_credentials, get_k8s_secret,
}
use custome_provider_mongo_d.Organization.Observe.{
  observe, secret_name_matches, observe_settled, record_secret, desired_secret_name,
}
use custome_provider_mongo_d.Organization.Update.{
  update, update_org, migrate, update_key, update_enforcement, update_ips, sync_ips, describe_key,
  assign_roles, needs_enforcement_update, add_missing, remove_surplus, missing_keys,
}
use custome_provider_mongo_d.Organization.Update.Converges.{Cooperates}
use custome_provider_mongo_d.Organization.Update.Cycle.{observe-update}
use custome_provider_mongo_d.Tests.Sample.{
  platform, with_aws, start, settled_resource, parent, aws_credentials, resource, closed,
  observation,
}

abbrev held : Secret
held = record {
  name = "acme-mongodb-credentials";
  namespace = "crossplane-system";
  labels = [];
  secret_data = ("credentials", marshal_credentials parent) ∷ [];
}

abbrev holding : Platform
holding = platform (ok tt) (ok aws_credentials) held

ok_injective : (a b : Organization) → ok b ≡ ok a → a ≡ b
ok_injective a b h = cc h

nonempty : ◌≢◌ {A = String} "key-id" ""
nonempty e = ground (arith, eq_iff "key-id" "", e)

abbrev keys_document : Document
keys_document = json (
    obj (
      field "results"
        (arr (cons (obj (field "id" (str "key-id") (field "publicKey" (str "parent") end))) nil))
        end))

-- Atlas lists one key, and accepts every change without content.
abbrev atlas_reply : HttpRequest → HttpReply
atlas_reply r = if r.method == "GET" then response 200 keys_document else response 204 malformed

abbrev atlas : Transport
atlas = record { refused = λ r. none; send = atlas_reply; is_time = λ s. true }

-- The Atlas client of the provider over it.
abbrev live : Platform
live = record holding { service = λ h creds. new_service atlas }

live-Cooperates : Cooperates live "5f1a" parent
unfolding new_service find_api_key_id set_org_admin_api_ip_enforcement make_request do_request
    into_field read_fields equal_fold read_slice matching_key make_v2_request
live-Cooperates = record {
  saves = λ h o updated same. ok_injective updated o same;
  finds = λ h. ("key-id", refl, nonempty);
  enforces = λ h required. refl;
}

live-KeepsSent : KeepsSent live
live-KeepsSent = record { saves = λ h o updated same. ok_injective updated o same }

observed_name : secret_name_matches (observe live with_aws (start settled_resource)).1.cr ≡ true
unfolding observe observe_settled record_secret secret_name_matches desired_secret_name
    k8s_secret_name call
observed_name = refl

credentials_fetched :
    (fetch_org_credentials live with_aws
      (observe live with_aws (start settled_resource)).1.cr
      (observe live with_aws (start settled_resource)).1).0
    ≡ done parent
unfolding observe observe_settled record_secret k8s_secret_name k8s_secret_namespace
    fetch_org_credentials get_k8s_secret unmarshal_credentials marshal_credentials read_field call
credentials_fetched = refl

update_returns :
    (update live with_aws (observe live with_aws (start settled_resource)).1).0 ≡ done tt
unfolding observe observe_settled record_secret k8s_secret_name k8s_secret_namespace update
    update_org fetch_org_credentials get_k8s_secret unmarshal_credentials marshal_credentials
    read_field migrate update_key update_enforcement update_ips sync_ips update_status_with_retry
    resolve_api_key_id call describe_key assign_roles equal_string_sets needs_enforcement_update
    add_missing remove_surplus missing_keys is_blank new_service find_api_key_id make_request
    do_request into_field read_slice matching_key update_org_api_key_description
    update_org_api_key_roles set_org_admin_api_ip_enforcement make_v2_request
    add_ips_to_api_key_access_list
update_returns = refl

observe-update_example :
    (observe live with_aws
      (update live with_aws (observe live with_aws (start settled_resource)).1).1).0
    ≡ done (record { resource_exists = true; resource_up_to_date = true })
observe-update_example =
    observe-update live with_aws (start settled_resource) parent live-Cooperates
      (record { named = λ e. ground (arith, eq_iff "5f1a" "", e); live = refl }) (inl refl)
      observed_name credentials_fetched update_returns

never_refused :
    (s : State) (e : Fault) → (fetch_org_credentials holding with_aws s.cr s).0 ≢ failed e
unfolding fetch_org_credentials get_k8s_secret unmarshal_credentials marshal_credentials read_field
    call
never_refused s e h = ground (arith, h)

holding-IsClear : IsClear holding with_aws
holding-IsClear = record {
  verifying = λ h creds id e same. absurd (ground (arith, same));
  deleting = λ h creds id e same. absurd (ground (arith, same));
  fetching = λ s e same. absurd (never_refused s e same);
}

delete_returns : (delete holding with_aws (start settled_resource)).0 ≡ done tt
unfolding delete cleanup_ips record_attempt precheck cleanup_secrets_after_delete
    delete_stored_secret save_status remove_finalizers update_status_with_retry call
delete_returns = refl

delete_done-confirmations_example :
    confirmations holding "5f1a" []
    < confirmations holding "5f1a" (delete holding with_aws (start settled_resource)).1.calls
delete_done-confirmations_example =
    delete_done-confirmations holding with_aws (start settled_resource) holding-IsClear
      (λ e. ground (arith, eq_iff "5f1a" "", e)) delete_returns

abbrev open_resource : Organization
open_resource = resource "5f1a" none closed observation

open_resource-IsStuck : IsStuck live open_resource
open_resource-IsStuck = record {
  settled = record { named = λ e. ground (arith, eq_iff "5f1a" "", e); live = refl };
  unwanted = refl;
  unknown = refl;
}

enforcement_stays_unsettled_example :
    (observe live with_aws (rounds live with_aws live-KeepsSent 2 (start open_resource))).0
    ≡ done (record { resource_exists = true; resource_up_to_date = false })
enforcement_stays_unsettled_example =
    enforcement_stays_unsettled live with_aws live-KeepsSent 2 (start open_resource)
      open_resource-IsStuck
