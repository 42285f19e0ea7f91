-- ===== src/Organization/Secrets/ReadsBack.antt =====
-- A cluster and an AWS account that give back the secrets that they accepted.
use custome_provider_mongo_d.Organization.Answers.{bind_answer}
use custome_provider_mongo_d.Prelude.{◌≡◌, refl, sym, ap, ◌∙◌, String, Option, List, ◌∷◌, arith}
use custome_provider_mongo_d.Go.Exec.{Result, ok, err, done}
use custome_provider_mongo_d.Mongo.Service.{ApiKeyPair}
use custome_provider_mongo_d.Aws.Secrets.{MongoDbApiCredentials}
use custome_provider_mongo_d.Api.Organization.{Organization}
use custome_provider_mongo_d.Organization.Platform.{
  Platform, State, Call, Secret, call, kube_create_secret, kube_update_secret, kube_get_secret,
  aws_put_secret,
}
use custome_provider_mongo_d.Organization.Names.{k8s_secret_name, k8s_secret_namespace}
use custome_provider_mongo_d.Organization.Secrets.{
  create_or_update_k8s_secret, create_or_update, credentials_secret,
}

-- The cluster and AWS give back the secret that they accepted to write last.
pub record ReadsBack (p : Platform) : Type 0 where
  pub created :
      (h : List Call) (x : Secret)
      → (p.kube h).create_secret x ≡ ok tt
      → (p.kube (kube_create_secret x ∷ h)).get_secret x.namespace x.name ≡ ok x
  pub updated :
      (h : List Call) (x : Secret)
      → (p.kube h).update_secret x ≡ ok tt
      → (p.kube (kube_update_secret x ∷ h)).get_secret x.namespace x.name ≡ ok x
  pub named :
      (h : List Call) (namespace name : String) (x : Secret)
      → (p.kube h).get_secret namespace name ≡ ok x
      → (x.namespace ≡ namespace) × (x.name ≡ name)
  pub put :
      (h : List Call) (region name : String) (creds : MongoDbApiCredentials) (org_id : String)
      (kms_key_id : Option String) (arn : String)
      → (p.secrets h region).put_secret name creds org_id kms_key_id ≡ ok arn
      → (p.secrets (aws_put_secret name creds org_id kms_key_id ∷ h) region).get_secret name
        ≡ ok creds

module _ (p : Platform) (reads : ReadsBack p) where
  -- The secret that is written, by what the cluster held before.
  reads-create_or_update :
      (w : Secret) (existing : Result Secret) (s : State)
      → ((x : Secret) → existing ≡ ok x → (x.namespace ≡ w.namespace) × (x.name ≡ w.name))
      → (create_or_update p w existing s).0 ≡ done tt
      → (p.kube (create_or_update p w existing s).1.calls).get_secret w.namespace w.name ≡ ok w
  unfolding call
  reads-create_or_update w (err e) s names h = ground (arith, h, reads.created s.calls w)
  reads-create_or_update w (ok x) s names h =
      let (namespace, name) = names x refl in
      let same : record x { labels = w.labels; secret_data = w.secret_data } ≡ w =
        ground (arith, namespace, name) in
      ground (
        arith,
        h,
        same,
        reads.updated s.calls (record x { labels = w.labels; secret_data = w.secret_data }),
      )

  pub reads-create_or_update_k8s_secret :
      (cr : Organization) (key : ApiKeyPair) (s : State)
      → (create_or_update_k8s_secret p cr key s).0 ≡ done tt
      → (p.kube (create_or_update_k8s_secret p cr key s).1.calls).get_secret
          (k8s_secret_namespace cr)
          (k8s_secret_name cr)
        ≡ ok (credentials_secret p cr key)
  unfolding create_or_update_k8s_secret credentials_secret
  reads-create_or_update_k8s_secret cr key s h =
      let steps =
        bind_answer (kube_get_secret (k8s_secret_namespace cr) (k8s_secret_name cr))
          (λ g. (p.kube g).get_secret (k8s_secret_namespace cr) (k8s_secret_name cr))
          (create_or_update p (credentials_secret p cr key)) s in
      rw steps (
        reads-create_or_update (credentials_secret p cr key) _ _ (reads.named s.calls _ _)
          (sym (ap (λ r. r.0) steps) ∙ h))

  pub cr-create_or_update_k8s_secret :
      (cr : Organization) (key : ApiKeyPair) (s : State)
      → (create_or_update_k8s_secret p cr key s).1.cr ≡ s.cr
  unfolding create_or_update_k8s_secret call
  cr-create_or_update_k8s_secret cr key s = ground arith
