-- ===== src/Tests/Clients.antt =====
-- The theorems about the two clients at concrete inputs, and those about the handlers over them.
use custome_provider_mongo_d.Mongo.Client.Listed.{AnsweredNone}
use custome_provider_mongo_d.Prelude.{
  ◌≡◌, ◌≢◌, ◌↔◌, ◌⊎◌, refl, ap, sym, String, true, false, ◌||◌, Option, none, some, List, [], ◌∷◌,
  ◌==◌, arith, eq_iff, eq_refl, nat_eq, leb, if◌then◌else◌,
}
use custome_provider_mongo_d.Mongo.Service.{Organization}
use custome_provider_mongo_d.Mongo.Client.{
  get_organization_by_name, verify_organization_deletion, new_service,
}
use custome_provider_mongo_d.Aws.Client.{
  get_secret, put_secret, SecretsManager, CreateSecretInput, is_secret_exists,
}
use custome_provider_mongo_d.Organization.Delete.Orphans.{checked_state}
use custome_provider_mongo_d.Go.Exec.{ok, err, Result}
use custome_provider_mongo_d.Go.Json.{
  Document, json, malformed, obj, arr, nil, str, field, end, read_fields, equal_fold,
}
use custome_provider_mongo_d.Mongo.Http.{response, HttpReply, make_request, Transport, no_result}
use custome_provider_mongo_d.Go.Fault.{
  secret_exists, Fault, is_not_found_error, is_unauthorized_fault, is_conflict_error,
  is_retryable_error,
}
use custome_provider_mongo_d.Organization.Delete.{precheck, cleanup_secrets_after_delete}
use custome_provider_mongo_d.Mongo.Client.Answers.{
  Answered404, IsOutage, verify_organization_deletion_iff, get_organization_by_name_iff,
  do_request-status_fault, get_request,
}
use custome_provider_mongo_d.Aws.Client.Upsert.{IsStore, get_secret-put_secret}
use custome_provider_mongo_d.Prelude.Text.{lower_contains, contains_codes}
use custome_provider_mongo_d.Organization.Platform.{Platform}
use custome_provider_mongo_d.Tests.Sample.{
  aws_credentials, usual, with_aws, start, new_resource, settled_resource,
}
use custome_provider_mongo_d.Go.Struct.{into_field}
use custome_provider_mongo_d.Organization.Trace.{Only}
use custome_provider_mongo_d.Organization.Observe.Calls.{is_observing}
use custome_provider_mongo_d.Organization.Create.{create}
use custome_provider_mongo_d.Organization.Delete.Outage.{precheck_found, precheck_outage}
use custome_provider_mongo_d.Organization.Create.Search.{create-search_reply}

abbrev answering : HttpReply → Transport
answering reply = record { refused = λ r. none; send = λ r. reply; is_time = λ s. true }

abbrev over : HttpReply → Platform
over reply = record usual { service = λ h creds. new_service (answering reply) }

abbrev org_id : String
org_id = "5f1a"

is_named : org_id ≢ ""
is_named = λ e. ground (arith, eq_iff "5f1a" "", e)

abbrev organization_document : Document
organization_document = json (obj (field "id" (str "a500") (field "name" (str "acme") end)))

abbrev organization_found : Organization
organization_found = record {
  id = "a500";
  name = "acme";
  org_owner_id = "";
  is_deleted = false;
  created = "";
}

do_request-status_fault_example :
    (e : Fault) × (make_request no_result (answering (response 503 malformed)) "GET" "/orgs" none
      ≡ err e)
    × (is_not_found_error (some e) ≡ nat_eq 503 404)
    × (is_unauthorized_fault (some e) ≡ (nat_eq 503 401 || nat_eq 503 403))
    × (is_conflict_error (some e) ≡ nat_eq 503 409)
    × (is_retryable_error (some e) ≡ (nat_eq 503 429 || leb 500 503))
unfolding make_request
do_request-status_fault_example =
    do_request-status_fault no_result (answering (response 503 malformed)) (get_request "/orgs") 503
      malformed refl refl refl

verify_organization_deletion_iff_example :
    (verify_organization_deletion (answering (response 404 malformed)) "5f1a" ≡ ok tt)
    ↔ Answered404 (response 404 malformed)
verify_organization_deletion_iff_example =
    verify_organization_deletion_iff (answering (response 404 malformed)) "5f1a" is_named refl

abbrev empty_list : Document
empty_list = json (obj (field "results" (arr nil) end))

get_organization_by_name_iff_example :
    (get_organization_by_name (answering (response 200 empty_list)) "5f1a" ≡ ok none) ↔ (
      Answered404 (response 200 empty_list)
      ⊎ AnsweredNone (answering (response 200 empty_list)) (response 200 empty_list))
get_organization_by_name_iff_example =
    get_organization_by_name_iff (answering (response 200 empty_list)) "5f1a" is_named refl

create-search_reply_example :
    (Answered404 (response 200 empty_list)
      ⊎ AnsweredNone (answering (response 200 empty_list)) (response 200 empty_list))
    ⊎ Only is_observing [] (create (over (response 200 empty_list)) with_aws (start new_resource)).1
create-search_reply_example =
    create-search_reply (over (response 200 empty_list)) with_aws (start new_resource)
      (answering (response 200 empty_list)) refl (λ e. ground (arith, eq_iff "acme" "", e)) refl

precheck_outage_example :
    precheck (over (response 503 malformed)) with_aws "5f1a" 0 (start settled_resource)
    ≡ cleanup_secrets_after_delete
        (over (response 503 malformed))
        with_aws
        0
        (checked_state (over (response 503 malformed)) with_aws "5f1a" 0 (start settled_resource))
unfolding IsOutage
precheck_outage_example =
    precheck_outage (over (response 503 malformed)) with_aws (start settled_resource)
      (answering (response 503 malformed)) refl "5f1a" 0 is_named refl refl

precheck_found_example :
    precheck (over (response 200 organization_document)) with_aws "a500" 0 (start settled_resource)
    ≡ cleanup_secrets_after_delete (over (response 200 organization_document)) with_aws 0 (
        checked_state
          (over (response 200 organization_document))
          with_aws
          "a500"
          0
          (start settled_resource))
unfolding lower_contains contains_codes into_field read_fields equal_fold
precheck_found_example =
    precheck_found (over (response 200 organization_document)) with_aws (start settled_resource)
      (answering (response 200 organization_document)) refl "a500" 0
      (λ e. ground (arith, eq_iff "a500" "", e)) refl organization_found refl refl

abbrev Secrets : Type 0
Secrets = List (String × Document)

abbrev held : String → Secrets → Option Document
held name [] = none
held name ((n, d) ∷ l) = if n == name then some d else held name l

abbrev created_in : CreateSecretInput → Secrets → Option Document → Result (Option String) × Secrets
created_in i s none = (ok (some "arn"), (i.name, i.secret_string) ∷ s)
created_in i s (some d) = (err (secret_exists "ResourceExistsException"), s)

abbrev manager : SecretsManager Secrets
manager = record {
  create_secret = λ i s. created_in i s (held i.name s);
  update_secret = λ i s. (ok (some "arn"), (i.secret_id, i.secret_string) ∷ s);
  get_secret_value = λ name s. (ok (held name s), s);
  describe_secret = λ name s. (ok (some "arn"), s);
  delete_secret = λ name recovery s. (ok tt, s);
}

created_in-held :
    (i : CreateSecretInput) (s t : Secrets) (found : Option Document) (arn : Option String)
    → created_in i s found ≡ (ok arn, t)
    → held i.name t ≡ some i.secret_string
created_in-held i s t none arn h =
    let written : (i.name, i.secret_string) ∷ s ≡ t = ap (λ r. r.1) h in
    rw (sym written) (ground (arith, eq_refl i.name))
created_in-held i s t (some d) arn h = absurd (ground (arith, h))

manager-IsStore : IsStore manager
manager-IsStore = record {
  reads_created = λ i s t arn h. ap (λ o. ok o) (created_in-held i s t (held i.name s) arn h);
  reads_updated = λ i s t arn h.
      let written : (i.secret_id, i.secret_string) ∷ s ≡ t = ap (λ r. r.1) h in
      ap (λ o. ok o) (rw (sym written) (ground (arith, eq_refl i.secret_id)));
}

-- The secret is there before, so that the update is made.
abbrev account : Secrets
account = ("acme", malformed) ∷ []

get_secret-put_secret_example :
    (get_secret manager "acme" (put_secret manager "acme" aws_credentials "5f1a" none account).1).0
    ≡ ok aws_credentials
unfolding put_secret is_secret_exists
get_secret-put_secret_example =
    get_secret-put_secret manager manager-IsStore "arn" "acme" aws_credentials "5f1a" none account
      refl
