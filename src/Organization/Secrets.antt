-- ===== src/Organization/Secrets.antt =====
-- The Kubernetes secret functions of organization.go, and `fetchOrgCredentials`.
pub mod RoundTrip
pub mod ReadsBack
use custome_provider_mongo_d.Prelude.{
  String, ◌&&◌, Option, none, some, List, [], ◌∷◌, ◌==◌, if◌then◌else◌,
}
use custome_provider_mongo_d.Go.Fault.{plain, wrapped, foreign, api_is_not_found}
use custome_provider_mongo_d.Go.Exec.{
  Result, ok, err, pure, throw, wrap, attempt, from_result, ◌>>=◌,
}
use custome_provider_mongo_d.Go.Json.{
  Document, malformed, json, obj, str, end, field, read_field, read_string, checked,
}
use custome_provider_mongo_d.Api.Organization.{Organization, secret_storage_type_kubernetes}
use custome_provider_mongo_d.Mongo.Service.{Credentials, ApiKeyPair}
use custome_provider_mongo_d.Organization.Names.{
  k8s_secret_name, k8s_secret_namespace, final_secret_name,
}
use custome_provider_mongo_d.Organization.Platform.{
  Platform, External, Go, Secret, kube_secret, kube_secret_create, kube_secret_update,
  kube_secret_delete, get_secret,
}

-- `json.Marshal` and `json.Unmarshal` of `svc.Credentials`.
unfoldable pub marshal_credentials : Credentials → Document
marshal_credentials c =
    json (obj (field "publicKey" (str c.public_key) (field "privateKey" (str c.private_key) end)))

unfoldable pub unmarshal_credentials : Document → Result Credentials
unmarshal_credentials malformed = err (foreign "invalid character in JSON")
unmarshal_credentials (json j) =
    let pub_key = read_field read_string "publicKey" "" j in
    let private = read_field read_string "privateKey" "" j in
    checked (pub_key.well_typed && private.well_typed)
      (record { public_key = pub_key.value; private_key = private.value })

abbrev pub lookup : String → List (String × Document) → Option Document
lookup k [] = none
lookup k ((j, v) ∷ m) = if j == k then some v else lookup k m

-- The name in the status, or the final name where the status has none.
unfoldable pub recorded_secret_name : Organization → String
recorded_secret_name cr =
    let name = cr.status.at_provider.secret_name in
    if name == "" then final_secret_name cr else name

module _ (p : Platform) where
  org_id_or_status : Organization → String
  org_id_or_status cr =
      let name = p.get_external_name cr.metadata in
      if name == "" then cr.status.at_provider.org_id else name

  org_id_label : String → List (String × String)
  org_id_label id = if id == "" then [] else ("mongodb.crossplane.io/org-id", id) ∷ []

  unfoldable pub credentials_secret : Organization → ApiKeyPair → Secret
  unfolding org_id_or_status org_id_label
  credentials_secret cr key = record {
    name = k8s_secret_name cr;
    namespace = k8s_secret_namespace cr;
    labels =
        ("app.kubernetes.io/managed-by", "crossplane")
        ∷ ("crossplane.io/claim-name", cr.metadata.name)
        ∷ org_id_label (org_id_or_status cr);
    secret_data =
        (
          "credentials",
          marshal_credentials
              (record { public_key = key.public_key; private_key = key.private_key }),
        )
        ∷ [];
  }

  abbrev pub create_or_update : Secret → Result Secret → Go Unit
  create_or_update secret (err e) =
      if api_is_not_found e
      then wrap "failed to create Kubernetes secret" (kube_secret_create p secret)
      else throw (wrapped "failed to check if Kubernetes secret exists" e)
  create_or_update secret (ok existing) = wrap "failed to update Kubernetes secret" (
      kube_secret_update p
        (record existing { labels = secret.labels; secret_data = secret.secret_data }))

  unfoldable pub create_or_update_k8s_secret : Organization → ApiKeyPair → Go Unit
  create_or_update_k8s_secret cr key = do
    existing ← attempt (kube_secret p (k8s_secret_namespace cr) (k8s_secret_name cr))
    create_or_update (credentials_secret cr key) existing

  abbrev pub credentials_of : Option Document → Go Credentials
  credentials_of none = throw (plain "credentials key not found in Kubernetes secret")
  credentials_of (some d) =
      wrap "failed to unmarshal credentials from Kubernetes secret"
        (λ s. (from_result (unmarshal_credentials d), s))

  unfoldable pub get_k8s_secret : Organization → Go Credentials
  get_k8s_secret cr = do
    secret ←
        wrap "failed to get Kubernetes secret"
          (kube_secret p (k8s_secret_namespace cr) (k8s_secret_name cr))
    credentials_of (lookup "credentials" secret.secret_data)

  abbrev pub absent_is_deleted : Result (Unit {0}) → Go Unit
  absent_is_deleted (ok u) = pure tt
  absent_is_deleted (err e) =
      if api_is_not_found e then pure tt else throw (wrapped "failed to delete Kubernetes secret" e)

  unfoldable pub delete_k8s_secret : Organization → Go Unit
  delete_k8s_secret cr = do
    answer ← attempt (kube_secret_delete p (k8s_secret_namespace cr) (k8s_secret_name cr))
    absent_is_deleted answer

  abbrev pub fetch_from_aws : Option String → Organization → Go Credentials
  fetch_from_aws none cr = throw (plain "AWS client not available")
  fetch_from_aws (some region) cr = do
    creds ← get_secret p region (recorded_secret_name cr)
    pure (record { public_key = creds.public_key; private_key = creds.private_key })

  unfoldable pub fetch_org_credentials : External → Organization → Go Credentials
  fetch_org_credentials c cr =
      if cr.status.at_provider.secret_storage_type == secret_storage_type_kubernetes
      then get_k8s_secret cr
      else fetch_from_aws c.aws_region cr
