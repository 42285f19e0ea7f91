-- ===== src/Aws/Secrets.antt =====
-- What the methods of the AWS client of internal/clients/aws/client.go answer at one moment.
use custome_provider_mongo_d.Prelude.{String, Bool, Option}
use custome_provider_mongo_d.Go.Exec.{Result}

pub record MongoDbApiCredentials : Type 0 where
  pub public_key : String
  pub private_key : String

-- `describe_secret` answers the ARN of the secret's metadata, which may be nil.
pub record SecretsClient : Type 0 where
  pub put_secret : String → MongoDbApiCredentials → String → Option String → Result String
  pub get_secret : String → Result MongoDbApiCredentials
  pub describe_secret : String → Result (Option String)
  pub delete_secret : String → Bool → Result (Unit {0})
