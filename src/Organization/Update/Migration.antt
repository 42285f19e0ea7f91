-- ===== src/Organization/Update/Migration.antt =====
-- Which AWS secrets the migration of the API key deletes.
use custome_provider_mongo_d.Prelude.{◌≡◌, ◌≢◌, eq_iff, String, List, [], ◌∷◌, arith}
use custome_provider_mongo_d.Prelude.Lists.{member}
use custome_provider_mongo_d.Mongo.Service.{Credentials}
use custome_provider_mongo_d.Organization.Names.{k8s_secret_name}
use custome_provider_mongo_d.Organization.Secrets.{create_or_update_k8s_secret}
use custome_provider_mongo_d.Organization.Platform.{
  Platform, External, State, Call, call, aws_delete_secret,
}
use custome_provider_mongo_d.Organization.Update.{migrate_to_kubernetes}

-- The names of the AWS secrets that the calls ask to delete.
pub aws_deletions : List Call → List String
aws_deletions [] = []
aws_deletions (aws_delete_secret name force ∷ h) = name ∷ aws_deletions h
aws_deletions (c ∷ h) = aws_deletions h

-- The migration of the key from AWS to Kubernetes never deletes the AWS secret that held it: whatever
-- the environment answers, the only AWS secret that it asks to delete is one with the name of the new
-- Kubernetes secret.
pub aws_deletions-migrate_to_kubernetes :
    (p : Platform) (c : External) (s : State) (current : String) (creds : Credentials)
    (old : String)
    → k8s_secret_name s.cr ≢ old
    → member (aws_deletions (migrate_to_kubernetes p c current creds s).1.calls) old
      ≡ member (aws_deletions s.calls) old
unfolding migrate_to_kubernetes create_or_update_k8s_secret aws_deletions call
aws_deletions-migrate_to_kubernetes p c s current creds old h =
    ground (arith, eq_iff (k8s_secret_name s.cr) old)
