-- ===== src/Aws/Client.antt =====
-- The methods of `Client` in internal/clients/aws/client.go, over the Secrets Manager API.
pub mod Upsert
use custome_provider_mongo_d.Prelude.{
  ℕ, String, ◌<>◌, Bool, true, false, ◌&&◌, Option, none, some, List, [], ◌∷◌, if◌then◌else◌,
}
use custome_provider_mongo_d.Go.Fault.{Fault, plain, wrapped, secret_exists}
use custome_provider_mongo_d.Go.Exec.{Result, ok, err}
use custome_provider_mongo_d.Go.Json.{
  Json, str, obj, Fields, end, field, Document, json, Decoded, read_string,
}
use custome_provider_mongo_d.Go.Struct.{into_field, read_struct, decode}
use custome_provider_mongo_d.Aws.Secrets.{MongoDbApiCredentials, SecretsClient}

-- `secretsmanager.CreateSecretInput` and `UpdateSecretInput`, the fields that are set.
pub record CreateSecretInput : Type 0 where
  pub name : String
  pub secret_string : Document
  pub description : String
  pub tags : List (String × String)
  pub kms_key_id : Option String

pub record UpdateSecretInput : Type 0 where
  pub secret_id : String
  pub secret_string : Document
  pub kms_key_id : Option String

-- How a secret is deleted: at once, or after a number of days.
pub data Recovery : Type 0 where
  at_once : Recovery
  after_days : ℕ → Recovery

-- The Secrets Manager API, on the state of the account. ARNs and the secret's text are pointers.
pub record SecretsManager (S : Type 0) : Type 0 where
  pub create_secret : CreateSecretInput → S → Result (Option String) × S
  pub update_secret : UpdateSecretInput → S → Result (Option String) × S
  pub get_secret_value : String → S → Result (Option Document) × S
  pub describe_secret : String → S → Result (Option String) × S
  pub delete_secret : String → Recovery → S → Result (Unit {0}) × S

-- `errors.As` with a `ResourceExistsException`.
unfoldable pub is_secret_exists : Fault → Bool
is_secret_exists (secret_exists msg) = true
is_secret_exists (wrapped msg e) = is_secret_exists e
is_secret_exists _ = false

-- `aws.ToString`
abbrev pub to_string : Option String → String
to_string none = ""
to_string (some s) = s

unfoldable pub credentials_document : MongoDbApiCredentials → Document
credentials_document creds = json (
    obj (field "publicKey" (str creds.public_key) (field "privateKey" (str creds.private_key) end)))

abbrev pub read_credentials : Fields → Decoded MongoDbApiCredentials → Decoded MongoDbApiCredentials
read_credentials fs d =
    into_field read_string "privateKey" (λ (c : MongoDbApiCredentials). c.private_key)
      (λ c v. record c { private_key = v }) fs
      (into_field read_string "publicKey" (λ (c : MongoDbApiCredentials). c.public_key)
        (λ c v. record c { public_key = v }) fs d)

abbrev pub secret_input :
    String → MongoDbApiCredentials → String → Option String → CreateSecretInput
secret_input name creds org_id kms_key_id = record {
  name = name;
  secret_string = credentials_document creds;
  description = "MongoDB API credentials for organization " <> org_id;
  tags =
      ("Provider", "mongodb-crossplane")
      ∷ ("OrgID", org_id)
      ∷ ("CreatedBy", "crossplane-mongodb-provider")
      ∷ [];
  kms_key_id = kms_key_id;
}

abbrev pub update_input : String → MongoDbApiCredentials → Option String → UpdateSecretInput
update_input name creds kms_key_id = record {
  secret_id = name;
  secret_string = credentials_document creds;
  kms_key_id = kms_key_id;
}

abbrev pub updated : {S : Type 0} → Result (Option String) × S → Result String × S
updated (ok arn, s) = (ok (to_string arn), s)
updated (err e, s) = (err (wrapped "cannot update existing AWS secret" e), s)

abbrev pub decoded : Result MongoDbApiCredentials → Result MongoDbApiCredentials
decoded (ok creds) = ok creds
decoded (err e) = err (wrapped "cannot unmarshal AWS secret JSON" e)

abbrev pub no_credentials : MongoDbApiCredentials
no_credentials = record { public_key = ""; private_key = "" }

abbrev pub after_value :
    {S : Type 0} → Result (Option Document) × S → Result MongoDbApiCredentials × S
after_value (ok none, s) = (err (plain "secret string is nil"), s)
after_value (ok (some text), s) =
    (decoded (decode (read_struct read_credentials) no_credentials text), s)
after_value (err e, s) = (err (wrapped "cannot get secret from AWS Secrets Manager" e), s)

abbrev pub after_deletion : {S : Type 0} → Result (Unit {0}) × S → Result (Unit {0}) × S
after_deletion (ok u, s) = (ok tt, s)
after_deletion (err e, s) = (err (wrapped "cannot delete secret from AWS Secrets Manager" e), s)

module _ {S : Type 0} (m : SecretsManager S) where
  abbrev pub after_creation : UpdateSecretInput → Result (Option String) × S → Result String × S
  after_creation input (ok arn, s) = (ok (to_string arn), s)
  after_creation input (err e, s) =
      if is_secret_exists e
      then updated (m.update_secret input s)
      else (err (wrapped "cannot create AWS secret" e), s)

  unfoldable pub put_secret :
      String → MongoDbApiCredentials → String → Option String → S → Result String × S
  put_secret name creds org_id kms_key_id s =
      after_creation (update_input name creds kms_key_id)
        (m.create_secret (secret_input name creds org_id kms_key_id) s)

  unfoldable pub get_secret : String → S → Result MongoDbApiCredentials × S
  get_secret name s = after_value (m.get_secret_value name s)

  unfoldable pub describe_secret : String → S → Result (Option String) × S
  describe_secret name s = m.describe_secret name s

  unfoldable pub delete_secret : String → Bool → S → Result (Unit {0}) × S
  delete_secret name force s =
      after_deletion (m.delete_secret name (if force then at_once else after_days 7) s)

  -- What the client answers in a state, as the controller uses it.
  unfoldable pub new_client : S → SecretsClient
  new_client s = record {
    put_secret = λ name creds org_id kms_key_id. (put_secret name creds org_id kms_key_id s).0;
    get_secret = λ name. (get_secret name s).0;
    describe_secret = λ name. (describe_secret name s).0;
    delete_secret = λ name force. (delete_secret name force s).0;
  }
