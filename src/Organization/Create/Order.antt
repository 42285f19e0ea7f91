-- ===== src/Organization/Create/Order.antt =====
-- In what order `Create` adds addresses and turns the enforcement on.
use custome_provider_mongo_d.Prelude.{
  ◌≡◌, refl, ap, ◌∙◌, Bool, true, false, String, Option, none, some, List, [], ◌∷◌, ◌++◌,
}
use custome_provider_mongo_d.Go.Exec.{
  Outcome, done, failed, panicked, continue, ◌>>=◌, Result, ok, err,
}
use custome_provider_mongo_d.Go.Keeps.{Keeps, Keeps-bind}
use custome_provider_mongo_d.Api.Organization.{
  Organization, SecretStorageConfig, AwsSecretsManagerReference, IpAccessEntry,
}
use custome_provider_mongo_d.Mongo.Service.{
  Credentials, ApiKeyPair, Organization as AtlasOrganization,
}
use custome_provider_mongo_d.Organization.Trace.{
  Only, Only-start, PermitsReads, PermitsSaves, PermitsStatus, trace_rules, all_calls,
}
use custome_provider_mongo_d.Organization.Trace.Common.{
  update_status_with_retry-Only, persist_external_name-Only, resolve_api_key_id-Only,
}
use custome_provider_mongo_d.Organization.Status.{
  PersistMessages, persist_external_name, update_status_with_retry,
}
use custome_provider_mongo_d.Organization.Secrets.{create_or_update, create_or_update_k8s_secret}
use custome_provider_mongo_d.Organization.Network.{
  resolve_api_key_id, provision_with, provision_ip_access, enable_api_access_list_required,
}
use custome_provider_mongo_d.Organization.Platform.{
  Platform, Go, Secret, External, State, Call, call, atlas, set_enforcement, add_ips,
}
use custome_provider_mongo_d.Organization.Create.{
  record_created, store_in_kubernetes, put_in_aws, store_in_aws, store_by_default, store_by,
  store_api_key, provision_new, enforce_new, finish_creation,
}

-- A call that is no change of the enforcement.
abbrev pub is_before : Call → Bool
is_before (atlas creds (set_enforcement org_id required)) = false
is_before _ = true

-- A call that adds no addresses.
abbrev pub is_after : Call → Bool
is_after (atlas creds (add_ips org_id key_id inputs)) = false
is_after _ = true

before_reads : PermitsReads is_before
before_reads = record {
  get_object = λ name. record { allowed = refl };
  get_k8s = λ namespace name. record { allowed = refl };
  get_aws = λ name. record { allowed = refl };
  describe_aws = λ name. record { allowed = refl };
  search_name = λ c name. record { allowed = refl };
  find_key = λ c org_id key. record { allowed = refl };
  verify = λ c org_id. record { allowed = refl };
}

before_saves : PermitsSaves is_before
before_saves = record { save_object = λ o. record { allowed = refl } }

before_status : PermitsStatus is_before
before_status = record { write_status = λ o. record { allowed = refl } }

after_reads : PermitsReads is_after
after_reads = record {
  get_object = λ name. record { allowed = refl };
  get_k8s = λ namespace name. record { allowed = refl };
  get_aws = λ name. record { allowed = refl };
  describe_aws = λ name. record { allowed = refl };
  search_name = λ c name. record { allowed = refl };
  find_key = λ c org_id key. record { allowed = refl };
  verify = λ c org_id. record { allowed = refl };
}

after_status : PermitsStatus is_after
after_status = record { write_status = λ o. record { allowed = refl } }

module _ (p : Platform) (c : External) {base : List Call} where
  persist-Only :
      (m : PersistMessages) (id : String)
      → Keeps (Only is_before base) (persist_external_name p m id)
  persist-Only = persist_external_name-Only p before_reads before_saves

  resolve-Only :
      (creds : Credentials) (org_id : String)
      → Keeps (Only is_before base) (resolve_api_key_id p creds org_id)
  resolve-Only = resolve_api_key_id-Only p before_reads before_status

  update_status-Only : Keeps (Only is_after base) (update_status_with_retry p)
  update_status-Only = update_status_with_retry-Only p after_reads after_status

  record_created-Only :
      (org : AtlasOrganization) (key : ApiKeyPair)
      → Keeps (Only is_before base) (record_created p c org key)
  unfolding record_created
  record_created-Only org key = search (trace_rules, persist-Only) depth 12

  create_or_update-Only :
      (x : Secret) (r : Result Secret) → Keeps (Only is_before base) (create_or_update p x r)
  create_or_update-Only x (ok existing) = search trace_rules
  create_or_update-Only x (err e) = search trace_rules

  create_or_update_k8s_secret-Only :
      (cr : Organization) (key : ApiKeyPair)
      → Keeps (Only is_before base) (create_or_update_k8s_secret p cr key)
  unfolding create_or_update_k8s_secret
  create_or_update_k8s_secret-Only cr key = search (trace_rules, create_or_update-Only)

  store_in_kubernetes-Only :
      (key : ApiKeyPair) → Keeps (Only is_before base) (store_in_kubernetes p c key)
  store_in_kubernetes-Only key = search (trace_rules, create_or_update_k8s_secret-Only) depth 9

  put_in_aws-Only :
      (region name org_id : String) (kms : Option String) (key : ApiKeyPair)
      → Keeps (Only is_before base) (put_in_aws p c region name org_id kms key)
  put_in_aws-Only region name org_id kms key = search trace_rules depth 9

  store_in_aws-Only :
      (region : Option String) (config : Option AwsSecretsManagerReference)
      (org : AtlasOrganization) (key : ApiKeyPair)
      → Keeps (Only is_before base) (store_in_aws p c region config org key)
  store_in_aws-Only none config org key = search trace_rules
  store_in_aws-Only (some region) none org key = search trace_rules
  store_in_aws-Only (some region) (some config) org key = search put_in_aws-Only

  store_by_default-Only :
      (region : Option String) (config : Option AwsSecretsManagerReference)
      (org : AtlasOrganization) (key : ApiKeyPair)
      → Keeps (Only is_before base) (store_by_default p c region config org key)
  store_by_default-Only none config org key = search trace_rules
  store_by_default-Only (some region) none org key = search trace_rules
  store_by_default-Only (some region) (some config) org key = search (trace_rules, put_in_aws-Only)

  store_by-Only :
      (cr : Organization) (config : Option SecretStorageConfig) (org : AtlasOrganization)
      (key : ApiKeyPair)
      → Keeps (Only is_before base) (store_by p c cr config org key)
  store_by-Only cr none org key = search store_by_default-Only
  store_by-Only cr (some config) org key =
      search (trace_rules, store_in_kubernetes-Only, store_in_aws-Only)

  store_api_key-Only :
      (org : AtlasOrganization) (key : ApiKeyPair)
      → Keeps (Only is_before base) (store_api_key p c org key)
  unfolding store_api_key
  store_api_key-Only org key = search (trace_rules, store_by-Only)

  provision_with-Only :
      (org_id : String) (entries : List IpAccessEntry) (key : ApiKeyPair) (found : Option String)
      → Keeps (Only is_before base) (provision_with p org_id entries key found)
  provision_with-Only org_id entries key none = search trace_rules
  provision_with-Only org_id entries key (some key_id) = search trace_rules depth 9

  provision_ip_access-Only :
      (org_id : String) (entries : List IpAccessEntry) (key : ApiKeyPair)
      → Keeps (Only is_before base) (provision_ip_access p org_id entries key)
  unfolding provision_ip_access
  provision_ip_access-Only org_id [] key = search trace_rules
  provision_ip_access-Only org_id (e ∷ entries) key =
      Keeps-bind _ _ (resolve-Only _ org_id) (provision_with-Only org_id (e ∷ entries) key)

  provision_new-Only :
      (org_id : String) (key : ApiKeyPair)
      → Keeps (Only is_before base) (provision_new p c org_id key)
  unfolding provision_new
  provision_new-Only org_id key = search (trace_rules, provision_ip_access-Only) depth 9

  enforce_new-Only :
      (org_id : String) (key : ApiKeyPair) → Keeps (Only is_after base) (enforce_new p c org_id key)
  unfolding enforce_new enable_api_access_list_required
  enforce_new-Only org_id key = search trace_rules depth 9

-- The calls since `base`: first those that change no enforcement, then those that add no addresses.
pub record IsOrdered (base : List Call) (s : State) : Type 0 where
  pub earlier : List Call
  pub later : List Call
  pub since : s.calls ≡ later ++ (earlier ++ base)
  pub before : all_calls is_before earlier ≡ true
  pub after : all_calls is_after later ≡ true

-- From calls that change no enforcement, `m` leads to ordered ones.
record Leads (base : List Call) {A : Type 0} (m : Go A) : Type 0 where
  at : (s : State) → Only is_before base s → IsOrdered base (m s).1

module _ {base : List Call} where
  IsOrdered-start : {s : State} → Only is_before base s → IsOrdered base s
  IsOrdered-start o = record {
    earlier = o.fresh;
    later = [];
    since = o.since;
    before = o.holds;
    after = refl;
  }

  Leads-last :
      {A : Type 0} (m : Go A) → ((b : List Call) → Keeps (Only is_after b) m) → Leads base m
  Leads-last m k = record {
    at = λ s o.
        let l = (k s.calls).at s (Only-start s) in
        record {
          earlier = o.fresh;
          later = l.fresh;
          since = l.since ∙ ap (λ h. l.fresh ++ h) o.since;
          before = o.holds;
          after = l.holds;
        };
  }

  Leads-bind :
      {A B : Type 0} (m : Go A) (f : A → Go B)
      → Keeps (Only is_before base) m
      → ((a : A) → Leads base (f a))
      → Leads base (m >>= f)
  unfolding call
  Leads-bind {A} {B} m f km kf = record { at = λ s o. go (m s) (km.at s o) }
    where
      go : (r : Outcome A × State) → Only is_before base r.1 → IsOrdered base (continue r f).1
      go (done a, s) o = (kf a).at s o
      go (failed e, s) o = IsOrdered-start o
      go (panicked, s) o = IsOrdered-start o

-- Once the organization exists, `Create` makes every call that adds addresses before every call that
-- turns the enforcement on, whichever calls fail and wherever the handler stops.
pub finish_creation-IsOrdered :
    (p : Platform) (c : External) (s : State) (org : AtlasOrganization) (key : ApiKeyPair)
    → IsOrdered s.calls (finish_creation p c org key s).1
unfolding finish_creation
finish_creation-IsOrdered p c s org key = leads.at s (Only-start s)
  where
    leads : Leads s.calls (finish_creation p c org key)
    leads = Leads-bind _ _ (record_created-Only p c org key) λ _.
        Leads-bind _ _ (store_api_key-Only p c org key) λ arn.
          Leads-bind _ _ (search trace_rules) λ _.
            Leads-bind _ _ (provision_new-Only p c org.id key) λ _. Leads-last _ λ b.
              Keeps-bind _ _ (enforce_new-Only p c org.id key)
                λ _. search (trace_rules, update_status-Only)
