-- ===== src/Organization/Shows.antt =====
-- What can be seen of the resource, and the steps that leave it as it is.
use custome_provider_mongo_d.Organization.Network.{resolve_api_key_id}
use custome_provider_mongo_d.Go.Json.{Document}
use custome_provider_mongo_d.Organization.Secrets.{
  get_k8s_secret, credentials_of, fetch_from_aws, fetch_org_credentials,
}
use custome_provider_mongo_d.Prelude.{◌≡◌, ◌∙◌, String, Option, none, some, List}
use custome_provider_mongo_d.Go.Exec.{Result}
use custome_provider_mongo_d.Go.Keeps.{Keeps, keeps_rules, Keeps-bind}
use custome_provider_mongo_d.Api.Organization.{Organization}
use custome_provider_mongo_d.Mongo.Service.{Credentials}
use custome_provider_mongo_d.Organization.Platform.{Platform, External, State, Call, call, set_cr}
use custome_provider_mongo_d.Go.Keeps.{Keeps-wrap}

-- What can be seen of a resource.
pub record Shows {A : Type 0} (view : Organization → A) (seen : A) (s : State) : Type 0 where
  pub same : view s.cr ≡ seen

module _ {V : Type 0} {view : Organization → V} {seen : V} where
  pub Shows-call :
      {A : Type 0} (c : Call) (answer : List Call → Result A)
      → Keeps (Shows view seen) (call c answer)
  unfolding call
  Shows-call c answer = record { at = λ s h. record { same = h.same } }

  pub Shows-set_cr :
      (f : Organization → Organization)
      → ((o : Organization) → view (f o) ≡ view o)
      → Keeps (Shows view seen) (set_cr f)
  unfolding call
  Shows-set_cr f same = record { at = λ s h. record { same = same s.cr ∙ h.same } }

pub ruleset shows_rules = (keeps_rules, Shows-call, Shows-set_cr)

module _ (p : Platform) (c : External) where
  module _ {V : Type 0} {view : Organization → V} {seen : V} where
    pub get_k8s-Shows : (cr : Organization) → Keeps (Shows view seen) (get_k8s_secret p cr)
    unfolding get_k8s_secret
    get_k8s-Shows cr = search (shows_rules, credentials_of-Shows) depth 9
      where
        credentials_of-Shows : (d : Option Document) → Keeps (Shows view seen) (credentials_of p d)
        credentials_of-Shows none = search shows_rules
        credentials_of-Shows (some d) = Keeps-wrap _ _ (record { at = λ s h. h })

    fetch_from_aws-Shows :
        (region : Option String) (cr : Organization)
        → Keeps (Shows view seen) (fetch_from_aws p region cr)
    fetch_from_aws-Shows none cr = search shows_rules
    fetch_from_aws-Shows (some region) cr = search shows_rules

    pub fetch-Shows : (cr : Organization) → Keeps (Shows view seen) (fetch_org_credentials p c cr)
    unfolding fetch_org_credentials
    fetch-Shows cr = search (shows_rules, get_k8s-Shows, fetch_from_aws-Shows)

    pub resolve-Shows :
        (creds : Credentials) (org_id : String)
        → Keeps (Shows view seen) (resolve_api_key_id p creds org_id)
    unfolding resolve_api_key_id
    resolve-Shows creds org_id = search shows_rules
