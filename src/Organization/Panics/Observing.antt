-- ===== src/Organization/Panics/Observing.antt =====
-- `Observe` does not panic.
use custome_provider_mongo_d.Prelude.{String, Option, none, some}
use custome_provider_mongo_d.Go.Exec.{Result, ok, err}
use custome_provider_mongo_d.Go.Panics.{NeverPanics}
use custome_provider_mongo_d.Api.Organization.{
  Organization, OrganizationObservation, SecretStorageConfig,
}
use custome_provider_mongo_d.Mongo.Service.{Organization as AtlasOrganization}
use custome_provider_mongo_d.Organization.Platform.{Platform, External}
use custome_provider_mongo_d.Organization.Panics.{call_rules, persist-NeverPanics}
use custome_provider_mongo_d.Organization.Observe.{
  describe_into, describe_final, record_secret_as, record_secret, observe_restore, observe_found,
  observe_search, observe_adopt, observe_settled, observe_deleting, observe,
}

module _ (p : Platform) (c : External) where
  describe_into-NeverPanics :
      (f : String → OrganizationObservation → OrganizationObservation) (r : Result (Option String))
      → NeverPanics (describe_into p c f r)
  describe_into-NeverPanics f (ok (some arn)) = search call_rules
  describe_into-NeverPanics f (ok none) = search call_rules
  describe_into-NeverPanics f (err e) = search call_rules

  describe_final-NeverPanics :
      (f : String → String → OrganizationObservation → OrganizationObservation)
      (region : Option String) (cr : Organization)
      → NeverPanics (describe_final p c f region cr)
  describe_final-NeverPanics f none cr = search call_rules
  describe_final-NeverPanics f (some region) cr =
      search (call_rules, describe_into-NeverPanics) depth 9

  record_as-NeverPanics :
      (cr : Organization) (config : Option SecretStorageConfig)
      → NeverPanics (record_secret_as p c cr config)
  record_as-NeverPanics cr none = search (call_rules, describe_final-NeverPanics) depth 9
  record_as-NeverPanics cr (some config) = search (call_rules, describe_final-NeverPanics) depth 9

  restore-NeverPanics : (id : String) → NeverPanics (observe_restore p c id)
  unfolding observe_restore
  restore-NeverPanics id = search (call_rules, persist-NeverPanics) depth 9

  found-NeverPanics : (org : AtlasOrganization) → NeverPanics (observe_found p c org)
  unfolding observe_found
  found-NeverPanics org = search (call_rules, persist-NeverPanics) depth 12

  search-NeverPanics : (r : Result (Option AtlasOrganization)) → NeverPanics (observe_search p c r)
  search-NeverPanics (ok none) = search call_rules
  search-NeverPanics (ok (some org)) = found-NeverPanics org
  search-NeverPanics (err e) = search call_rules

  pub observe-NeverPanics : NeverPanics (observe p c)
  unfolding observe observe_adopt observe_settled observe_deleting record_secret
  observe-NeverPanics =
      search (call_rules, restore-NeverPanics, search-NeverPanics, record_as-NeverPanics) depth 14
