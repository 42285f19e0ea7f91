-- ===== src/Organization/Reconcile/Observing.antt =====
-- `Connect` and `Observe` keep the fields of a status in agreement.
use custome_provider_mongo_d.Prelude.{◌≡◌, String, Option, none, some, arith, true}
use custome_provider_mongo_d.Go.Exec.{Result, ok, err, pure, wrap, ◌>>=◌, ◌>>◌}
use custome_provider_mongo_d.Go.Json.{Document}
use custome_provider_mongo_d.Go.Keeps.{Keeps}
use custome_provider_mongo_d.Mongo.Service.{Organization as AtlasOrganization}
use custome_provider_mongo_d.Organization.Platform.{Platform, External, get_cr, kube_status_update}
use custome_provider_mongo_d.Organization.Status.{with_external_name}
use custome_provider_mongo_d.Organization.Reconcile.{consistent}
use custome_provider_mongo_d.Organization.Reconcile.Steps.{persist-Agrees}
use custome_provider_mongo_d.Api.Organization.{
  Organization, OrganizationObservation, SecretStorageConfig,
}
use custome_provider_mongo_d.Api.ProviderConfig.{
  SecretKeySelector, AwsCredentialsSource, AwsSecretsManagerReference,
}
use custome_provider_mongo_d.Organization.Connect.{
  from_key, from_kubernetes, new_aws_client, from_aws_secret, from_named_secret,
  from_secrets_manager, from_aws, from_reference, connect,
}
use custome_provider_mongo_d.Organization.Reconcile.Rules.{
  Agrees, agree_rules, Keeps-unseen, Keeps-current, Keeps-record,
}
use custome_provider_mongo_d.Organization.Observe.{
  set_at_provider, adopted, describe_into, describe_final, record_secret_as, record_secret,
  observe_restore, observe_found, observe_search, observe_adopt, observe_settled, observe_deleting,
  observe,
}

adopted-consistent :
    (org : AtlasOrganization) (o : OrganizationObservation)
    → consistent o ≡ true
    → consistent (adopted org o) ≡ true
adopted-consistent org o h = ground (arith, h)

pub adopt-Agrees :
    {p : Platform} (org : AtlasOrganization) → Keeps (Agrees p) (set_at_provider (adopted org))
adopt-Agrees org = Keeps-record (adopted org) (adopted-consistent org)

module _ (p : Platform) (c : External) where
  describe_into-Agrees :
      (f : String → OrganizationObservation → OrganizationObservation)
      → ((arn : String) (o : OrganizationObservation) → consistent (f arn o) ≡ consistent o)
      → (r : Result (Option String)) → Keeps (Agrees p) (describe_into p c f r)
  describe_into-Agrees f same (ok (some arn)) = search (agree_rules, same)
  describe_into-Agrees f same (ok none) = search agree_rules
  describe_into-Agrees f same (err e) = search agree_rules

  describe_final-Agrees :
      (f : String → String → OrganizationObservation → OrganizationObservation)
      → ((name arn : String) (o : OrganizationObservation)
          → consistent (f name arn o) ≡ consistent o)
      → (region : Option String) (cr : Organization)
      → Keeps (Agrees p) (describe_final p c f region cr)
  describe_final-Agrees f same none cr = search agree_rules
  describe_final-Agrees f same (some region) cr = search (agree_rules, describe_into-Agrees, same)

  record_secret_as-Agrees :
      (cr : Organization) (config : Option SecretStorageConfig)
      → Keeps (Agrees p) (record_secret_as p c cr config)
  record_secret_as-Agrees cr none = search (agree_rules, describe_final-Agrees) depth 9
  record_secret_as-Agrees cr (some config) = search (agree_rules, describe_final-Agrees) depth 12

  record_secret-Agrees : Keeps (Agrees p) (record_secret p c)
  unfolding record_secret
  record_secret-Agrees = search (agree_rules, record_secret_as-Agrees)

  send_adopted :
      {A : Type 0} (msg : String) (latest : Organization) (a : A) (cr : Organization)
      → consistent cr.status.at_provider ≡ true
      → Keeps
          (Agrees p)
          (do wrap msg (kube_status_update p (record latest { status = cr.status })); pure a)
  send_adopted msg latest a cr h = search (agree_rules, h)

  -- The adopted organization is saved with the status as it stands.
  pub save_adopted :
      {A : Type 0} (msg : String) (latest : Organization) (a : A)
      → Keeps (Agrees p) (do
        cr ← get_cr
        wrap msg (kube_status_update p (record latest { status = cr.status }))
        pure a)
  save_adopted msg latest a =
      Keeps-current _ λ s k. (send_adopted msg latest a s.cr k.current).at s k

  observe_found-Agrees : (org : AtlasOrganization) → Keeps (Agrees p) (observe_found p c org)
  unfolding observe_found with_external_name
  observe_found-Agrees org =
      search (agree_rules, persist-Agrees, adopt-Agrees, save_adopted) depth 9

  observe_search-Agrees :
      (r : Result (Option AtlasOrganization)) → Keeps (Agrees p) (observe_search p c r)
  observe_search-Agrees (ok none) = search agree_rules
  observe_search-Agrees (ok (some org)) = search observe_found-Agrees
  observe_search-Agrees (err e) = search agree_rules

  observe_adopt-Agrees : (cr : Organization) → Keeps (Agrees p) (observe_adopt p c cr)
  unfolding observe_adopt
  observe_adopt-Agrees cr = search (agree_rules, observe_search-Agrees)

  observe_restore-Agrees : (id : String) → Keeps (Agrees p) (observe_restore p c id)
  unfolding observe_restore with_external_name
  observe_restore-Agrees id = search (agree_rules, persist-Agrees) depth 9

  observe_settled-Agrees : Keeps (Agrees p) (observe_settled p c)
  unfolding observe_settled
  observe_settled-Agrees = search (agree_rules, record_secret-Agrees) depth 9

  observe_deleting-Agrees : Keeps (Agrees p) (observe_deleting p c)
  unfolding observe_deleting
  observe_deleting-Agrees = search agree_rules

  pub observe-Agrees : Keeps (Agrees p) (observe p c)
  unfolding observe
  observe-Agrees =
      search
        (
          agree_rules, observe_restore-Agrees, observe_adopt-Agrees, observe_deleting-Agrees,
          observe_settled-Agrees,
        )
        depth 9

module _ (p : Platform) where
  from_key-Agrees : (r : SecretKeySelector) (d : Option Document) → Keeps (Agrees p) (from_key r d)
  from_key-Agrees r none = search agree_rules
  from_key-Agrees r (some d) = search (agree_rules, Keeps-unseen)

  from_kubernetes-Agrees :
      (ref : Option SecretKeySelector) → Keeps (Agrees p) (from_kubernetes p ref)
  from_kubernetes-Agrees none = search agree_rules
  from_kubernetes-Agrees (some r) = search (agree_rules, from_key-Agrees)

  from_aws_secret-Agrees : (region name : String) → Keeps (Agrees p) (from_aws_secret p region name)
  unfolding new_aws_client
  from_aws_secret-Agrees region name = search (agree_rules, Keeps-unseen) depth 9

  from_named_secret-Agrees :
      (region : String) (name : Option String) → Keeps (Agrees p) (from_named_secret p region name)
  from_named_secret-Agrees region none = search agree_rules
  from_named_secret-Agrees region (some name) = search (agree_rules, from_aws_secret-Agrees)

  from_aws-Agrees : (aws : Option AwsCredentialsSource) → Keeps (Agrees p) (from_aws p aws)
  from_aws-Agrees none = search agree_rules
  from_aws-Agrees (some aws) = manager aws.secrets_manager
    where
      manager :
          (m : Option AwsSecretsManagerReference) → Keeps (Agrees p) (from_secrets_manager p m)
      manager none = search agree_rules
      manager (some config) = from_named_secret-Agrees config.region config.secret_name

  from_reference-Agrees : (name : Option String) → Keeps (Agrees p) (from_reference p name)
  from_reference-Agrees none = search agree_rules
  from_reference-Agrees (some name) =
      search (agree_rules, from_kubernetes-Agrees, from_aws-Agrees) depth 9

  pub connect-Agrees : Keeps (Agrees p) (connect p)
  unfolding connect
  connect-Agrees = search (agree_rules, from_reference-Agrees) depth 9
