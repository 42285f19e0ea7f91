-- ===== src/Organization/Trace.antt =====
-- Statements about the calls that a handler makes.
pub mod Common
use custome_provider_mongo_d.Prelude.{
  ◌≡◌, refl, ap, ◌∙◌, ◌++◌, Bool, true, false, ◌&&◌, String, List, [], ◌∷◌, arith,
}
use custome_provider_mongo_d.Go.Exec.{Result, ok, err}
use custome_provider_mongo_d.Go.Keeps.{Keeps, keeps_rules}
use custome_provider_mongo_d.Organization.Platform.{
  Call, State, Go, call, set_cr, kube_get_organization, kube_update_organization,
  kube_update_status, kube_get_secret, aws_get_secret, aws_describe_secret, atlas,
  get_organization_by_name, find_api_key_id, verify_organization_deletion,
}
use custome_provider_mongo_d.Mongo.Service.{Credentials}
use custome_provider_mongo_d.Api.Organization.{Organization}

abbrev pub all_calls : (Call → Bool) → List Call → Bool
all_calls good [] = true
all_calls good (c ∷ h) = good c && all_calls good h

-- The calls since `base` are all good ones.
pub record Only (good : Call → Bool) (base : List Call) (s : State) : Type 0 where
  pub fresh : List Call
  pub since : s.calls ≡ fresh ++ base
  pub holds : all_calls good fresh ≡ true

pub Only-start : {good : Call → Bool} (s : State) → Only good s.calls s
Only-start s = record { fresh = []; since = refl; holds = refl }

pub record Allowed (good : Call → Bool) (c : Call) : Type 0 where
  pub allowed : good c ≡ true

-- The calls that only read.
pub record PermitsReads (good : Call → Bool) : Type 0 where
  pub get_object : (name : String) → Allowed good (kube_get_organization name)
  pub get_k8s : (namespace name : String) → Allowed good (kube_get_secret namespace name)
  pub get_aws : (name : String) → Allowed good (aws_get_secret name)
  pub describe_aws : (name : String) → Allowed good (aws_describe_secret name)
  pub search_name :
      (c : Credentials) (name : String) → Allowed good (atlas c (get_organization_by_name name))
  pub find_key :
      (c : Credentials) (org_id key : String) → Allowed good (atlas c (find_api_key_id org_id key))
  pub verify :
      (c : Credentials) (org_id : String)
      → Allowed good (atlas c (verify_organization_deletion org_id))

-- The calls that write the Organization object, and those that write its status.
pub record PermitsSaves (good : Call → Bool) : Type 0 where
  pub save_object : (o : Organization) → Allowed good (kube_update_organization o)

pub record PermitsStatus (good : Call → Bool) : Type 0 where
  pub write_status : (o : Organization) → Allowed good (kube_update_status o)

module _ {good : Call → Bool} {base : List Call} where
  pub Keeps-call :
      {A : Type 0} (c : Call) (answer : List Call → Result A)
      → Allowed good c
      → Keeps (Only good base) (call c answer)
  unfolding call
  Keeps-call c answer h = record {
    at = λ s k. record {
      fresh = c ∷ k.fresh;
      since = ap (λ l. c ∷ l) k.since;
      holds = ground (arith, k.holds, h.allowed);
    };
  }

  pub Keeps-set_cr : (f : Organization → Organization) → Keeps (Only good base) (set_cr f)
  unfolding call
  Keeps-set_cr f = record {
    at = λ s k. record { fresh = k.fresh; since = k.since; holds = k.holds };
  }

  pub Keeps-pass :
      {A : Type 0} (m : Go A) → ((s : State) → (m s).1.calls ≡ s.calls) → Keeps (Only good base) m
  Keeps-pass m h = record {
    at = λ s k. record { fresh = k.fresh; since = h s ∙ k.since; holds = k.holds };
  }

module _ {good : Call → Bool} (reads : PermitsReads good) where
  pub get_object_permitted : (name : String) → Allowed good (kube_get_organization name)
  get_object_permitted = reads.get_object

  pub get_k8s_permitted : (namespace name : String) → Allowed good (kube_get_secret namespace name)
  get_k8s_permitted = reads.get_k8s

  pub get_aws_permitted : (name : String) → Allowed good (aws_get_secret name)
  get_aws_permitted = reads.get_aws

  pub describe_aws_permitted : (name : String) → Allowed good (aws_describe_secret name)
  describe_aws_permitted = reads.describe_aws

  pub search_name_permitted :
      (c : Credentials) (name : String) → Allowed good (atlas c (get_organization_by_name name))
  search_name_permitted = reads.search_name

  pub find_key_permitted :
      (c : Credentials) (org_id key : String) → Allowed good (atlas c (find_api_key_id org_id key))
  find_key_permitted = reads.find_key

  pub verify_permitted :
      (c : Credentials) (org_id : String)
      → Allowed good (atlas c (verify_organization_deletion org_id))
  verify_permitted = reads.verify

module _ {good : Call → Bool} (saves : PermitsSaves good) where
  pub save_object_permitted : (o : Organization) → Allowed good (kube_update_organization o)
  save_object_permitted = saves.save_object

module _ {good : Call → Bool} (saves : PermitsStatus good) where
  pub save_status_permitted : (o : Organization) → Allowed good (kube_update_status o)
  save_status_permitted = saves.write_status

pub ruleset trace_rules = (
  keeps_rules, Keeps-call, Keeps-set_cr, get_object_permitted, get_k8s_permitted, get_aws_permitted,
  describe_aws_permitted, search_name_permitted, find_key_permitted, verify_permitted,
  save_object_permitted, save_status_permitted,
)
