-- ===== src/Aws/Client/Upsert.antt =====
-- `PutSecret` as a write to a store, and `GetSecret` as the read.
use custome_provider_mongo_d.Prelude.{
  ap, sym, none, ◌≡◌, refl, String, Option, some, arith, Bool-cases, inl, inr,
}
use custome_provider_mongo_d.Go.Exec.{Result, ok, err}
use custome_provider_mongo_d.Go.Json.{Document, read_fields, equal_fold}
use custome_provider_mongo_d.Go.Struct.{into_field, decode, read_struct}
use custome_provider_mongo_d.Aws.Secrets.{MongoDbApiCredentials}
use custome_provider_mongo_d.Aws.Client.{
  SecretsManager, CreateSecretInput, UpdateSecretInput, credentials_document, put_secret,
  get_secret, is_secret_exists, secret_input, update_input, after_creation, updated, after_value,
  decoded, read_credentials, no_credentials,
}

-- What the client relies on: after an accepted creation or update of a secret, the text that was
-- written is read.
pub record IsStore {S : Type 0} (m : SecretsManager S) : Type 0 where
  pub reads_created :
      (i : CreateSecretInput) (s t : S) (arn : Option String)
      → m.create_secret i s ≡ (ok arn, t)
      → (m.get_secret_value i.name t).0 ≡ ok (some i.secret_string)
  pub reads_updated :
      (i : UpdateSecretInput) (s t : S) (arn : Option String)
      → m.update_secret i s ≡ (ok arn, t)
      → (m.get_secret_value i.secret_id t).0 ≡ ok (some i.secret_string)

decode_credentials :
    (creds : MongoDbApiCredentials)
    → decode (read_struct read_credentials) no_credentials (credentials_document creds) ≡ ok creds
unfolding credentials_document into_field read_fields equal_fold
decode_credentials creds = refl

read_back :
    {S : Type 0} (r : Result (Option Document) × S) (creds : MongoDbApiCredentials)
    → r.0 ≡ ok (some (credentials_document creds))
    → (after_value r).0 ≡ ok creds
read_back (ok (some text), s) creds h =
    let same : text ≡ credentials_document creds = ground (arith, h) in
    rw same (ap decoded (decode_credentials creds))
read_back (ok none, s) creds h = absurd (ground (arith, h))
read_back (err e, s) creds h = absurd (ground (arith, h))

module _ {S : Type 0} (m : SecretsManager S) (store : IsStore m) (arn : String) where
  updated-stored :
      (i : UpdateSecretInput) (s : S) (r : Result (Option String) × S)
      → m.update_secret i s ≡ r
      → (updated r).0 ≡ ok arn
      → (m.get_secret_value i.secret_id (updated r).1).0 ≡ ok (some i.secret_string)
  updated-stored i s (ok a, t) h done = store.reads_updated i s t a h
  updated-stored i s (err e, t) h done = absurd (ground (arith, done))

  after_creation-stored :
      (i : CreateSecretInput) (u : UpdateSecretInput) (s : S) (r : Result (Option String) × S)
      → u.secret_id ≡ i.name
      → u.secret_string ≡ i.secret_string
      → m.create_secret i s ≡ r
      → (after_creation m u r).0 ≡ ok arn
      → (m.get_secret_value i.name (after_creation m u r).1).0 ≡ ok (some i.secret_string)
  after_creation-stored i u s (ok a, t) name text h done = store.reads_created i s t a h
  after_creation-stored i u s (err e, t) name text h done = elim (Bool-cases (is_secret_exists e)) [
    | inl exists ↦ rw (exists, sym name, sym text) (updated-stored u t _ refl (rw exists at done))
    | inr other ↦ absurd (ground (arith, done, other))
  ]

  -- Where `PutSecret` succeeds, `GetSecret` of the same name then gives the credentials that were put,
  -- whether the secret was created or was there before and was updated.
  pub get_secret-put_secret :
      (name : String) (creds : MongoDbApiCredentials) (org_id : String) (kms_key_id : Option String)
      (s : S)
      → (put_secret m name creds org_id kms_key_id s).0 ≡ ok arn
      → (get_secret m name (put_secret m name creds org_id kms_key_id s).1).0 ≡ ok creds
  unfolding put_secret get_secret
  get_secret-put_secret name creds org_id kms_key_id s h = read_back _ creds (
      after_creation-stored (secret_input name creds org_id kms_key_id)
        (update_input name creds kms_key_id) s _ refl refl refl h)
