-- ===== src/Organization/Reconcile/Steps.antt =====
-- The steps that several handlers share keep the fields of a status in agreement.
use custome_provider_mongo_d.Prelude.{◌∷◌, ◌≡◌, refl, String, Option, none, some, arith, true}
use custome_provider_mongo_d.Go.Exec.{Result, ok, err}
use custome_provider_mongo_d.Go.Fault.{Fault}
use custome_provider_mongo_d.Go.Json.{Document}
use custome_provider_mongo_d.Go.Keeps.{Keeps}
use custome_provider_mongo_d.Api.Organization.{Organization}
use custome_provider_mongo_d.Mongo.Service.{Credentials, ApiKeyPair}
use custome_provider_mongo_d.Organization.Network.{resolve_api_key_id}
use custome_provider_mongo_d.Organization.Reconcile.{creations, KeepsStatus, consistent}
use custome_provider_mongo_d.Organization.Reconcile.Rules.{Agrees, agree_rules, Keeps-unseen}
use custome_provider_mongo_d.Organization.Platform.{
  kube_status_update, kube_update_status, Platform, External, Secret, State, call,
}
use custome_provider_mongo_d.Organization.Secrets.{
  credentials_of, get_k8s_secret, fetch_from_aws, fetch_org_credentials, create_or_update,
  create_or_update_k8s_secret, absent_is_deleted, delete_k8s_secret,
}
use custome_provider_mongo_d.Organization.Status.{
  PersistMessages, retry_status, retry_on_latest, update_status_with_retry, after_update,
  persist_external_name,
}

module _ (p : Platform) where
  -- A status that agrees is sent.
  pub send_status-Agrees :
      (o : Organization)
      → consistent o.status.at_provider ≡ true
      → Keeps (Agrees p) (kube_status_update p o)
  send_status-Agrees o h = search (agree_rules, h)

  retry_on_latest-Agrees :
      (obj : Organization)
      → consistent obj.status.at_provider ≡ true
      → Keeps (Agrees p) (retry_on_latest p obj)
  retry_on_latest-Agrees obj h = search (agree_rules, h)

  refused-Agrees :
      (obj : Organization) (f : Fault)
      → consistent obj.status.at_provider ≡ true
      → Keeps (Agrees p) (retry_status p obj (err f))
  refused-Agrees obj f h = search (agree_rules, retry_on_latest-Agrees)

  credentials_of-Agrees : (o : Option Document) → Keeps (Agrees p) (credentials_of p o)
  credentials_of-Agrees none = search agree_rules
  credentials_of-Agrees (some d) = search (agree_rules, Keeps-unseen)

  get_k8s_secret-Agrees : (cr : Organization) → Keeps (Agrees p) (get_k8s_secret p cr)
  unfolding get_k8s_secret
  get_k8s_secret-Agrees cr = search (agree_rules, credentials_of-Agrees)

  fetch_from_aws-Agrees :
      (region : Option String) (cr : Organization) → Keeps (Agrees p) (fetch_from_aws p region cr)
  fetch_from_aws-Agrees none cr = search agree_rules
  fetch_from_aws-Agrees (some region) cr = search agree_rules

  pub fetch-Agrees :
      (c : External) (cr : Organization) → Keeps (Agrees p) (fetch_org_credentials p c cr)
  unfolding fetch_org_credentials
  fetch-Agrees c cr = search (agree_rules, get_k8s_secret-Agrees, fetch_from_aws-Agrees)

  pub resolve-Agrees :
      (creds : Credentials) (org_id : String) → Keeps (Agrees p) (resolve_api_key_id p creds org_id)
  unfolding resolve_api_key_id
  resolve-Agrees creds org_id = search agree_rules

  after_update-Agrees :
      (m : PersistMessages) (name id : String) (r : Result Organization)
      → Keeps (Agrees p) (after_update p m name id r)
  after_update-Agrees m name id (ok latest) = search agree_rules
  after_update-Agrees m name id (err e) = search agree_rules

  pub persist-Agrees :
      (m : PersistMessages) (id : String) → Keeps (Agrees p) (persist_external_name p m id)
  unfolding persist_external_name
  persist-Agrees m id = search (agree_rules, after_update-Agrees) depth 9

  create_or_update-Agrees :
      (x : Secret) (r : Result Secret) → Keeps (Agrees p) (create_or_update p x r)
  create_or_update-Agrees x (ok existing) = search agree_rules
  create_or_update-Agrees x (err e) = search agree_rules

  pub store-Agrees :
      (cr : Organization) (key : ApiKeyPair)
      → Keeps (Agrees p) (create_or_update_k8s_secret p cr key)
  unfolding create_or_update_k8s_secret
  store-Agrees cr key = search (agree_rules, create_or_update-Agrees)

  absent_is_deleted-Agrees : (r : Result (Unit {0})) → Keeps (Agrees p) (absent_is_deleted p r)
  absent_is_deleted-Agrees (ok u) = search agree_rules
  absent_is_deleted-Agrees (err e) = search agree_rules

  pub delete_k8s-Agrees : (cr : Organization) → Keeps (Agrees p) (delete_k8s_secret p cr)
  unfolding delete_k8s_secret
  delete_k8s-Agrees cr = search (agree_rules, absent_is_deleted-Agrees)

module _ (p : Platform) (kept : KeepsStatus p) where
  -- The status that is sent is the resource's, and a server's answer has it too.
  answered-Agrees :
      (s : State) (r : Result Organization)
      → (p.kube s.calls).update_status s.cr ≡ r
      → Agrees p s
      → Agrees p (update_status_with_retry p s).1
  unfolding update_status_with_retry call creations
  answered-Agrees s (ok updated) e k = rw e (record {
    sent = ground (arith, k.sent, k.current);
    current = rw (kept.same_status s.calls s.cr updated e) k.current;
    single = k.single;
  })
  answered-Agrees s (err f) e k = rw e (
      (refused-Agrees p s.cr f k.current).at
        (record s { calls = kube_update_status s.cr ∷ s.calls })
        (record {
          sent = ground (arith, k.sent, k.current);
          current = k.current;
          single = k.single;
        }))

  pub update_status-Agrees : Keeps (Agrees p) (update_status_with_retry p)
  update_status-Agrees = record {
    at = λ s k. answered-Agrees s ((p.kube s.calls).update_status s.cr) refl k;
  }
