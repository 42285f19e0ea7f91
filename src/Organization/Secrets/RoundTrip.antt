-- ===== src/Organization/Secrets/RoundTrip.antt =====
-- The credentials that are written to a Kubernetes secret are those that are read back.
use custome_provider_mongo_d.Prelude.{◌≡◌, refl, ◌∷◌, arith}
use custome_provider_mongo_d.Go.Json.{read_field}
use custome_provider_mongo_d.Go.Exec.{ok, done}
use custome_provider_mongo_d.Api.Organization.{Organization}
use custome_provider_mongo_d.Mongo.Service.{Credentials, ApiKeyPair}
use custome_provider_mongo_d.Organization.Names.{k8s_secret_name, k8s_secret_namespace}
use custome_provider_mongo_d.Organization.Platform.{Platform, State, call, kube_get_secret}
use custome_provider_mongo_d.Organization.Secrets.{
  marshal_credentials, unmarshal_credentials, credentials_secret, get_k8s_secret,
}

-- Every pair of credentials survives being marshalled and unmarshalled.
pub unmarshal-marshal_credentials :
    (c : Credentials) → unmarshal_credentials (marshal_credentials c) ≡ ok c
unfolding unmarshal_credentials marshal_credentials read_field
unmarshal-marshal_credentials c = refl

-- Where the cluster answers with the secret that was written for a resource and an API key, reading
-- it gives the key, in one call.
pub get_k8s_secret-credentials_secret :
    (p : Platform) (s : State) (cr written : Organization) (key : ApiKeyPair)
    → (p.kube s.calls).get_secret (k8s_secret_namespace cr) (k8s_secret_name cr)
      ≡ ok (credentials_secret p written key)
    → get_k8s_secret p cr s ≡ (
      done (record { public_key = key.public_key; private_key = key.private_key }),
      record s { calls = kube_get_secret (k8s_secret_namespace cr) (k8s_secret_name cr) ∷ s.calls },
    )
unfolding get_k8s_secret credentials_secret call
get_k8s_secret-credentials_secret p s cr written key h = ground (
  arith,
  unmarshal-marshal_credentials
      (record { public_key = key.public_key; private_key = key.private_key }),
)
