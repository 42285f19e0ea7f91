-- ===== src/Organization/Status.antt =====
-- Writing the resource back to the Kubernetes API: `updateStatusWithRetry`, and the steps that save
-- an external name, which the handlers repeat with messages of their own.
pub mod Saved
use custome_provider_mongo_d.Prelude.{String, if◌then◌else◌}
use custome_provider_mongo_d.Go.Fault.{wrapped, api_is_conflict}
use custome_provider_mongo_d.Go.Exec.{Result, ok, err, pure, throw, wrap, attempt, ◌>>=◌, ◌>>◌}
use custome_provider_mongo_d.Api.Organization.{Organization}
use custome_provider_mongo_d.Organization.Platform.{
  Platform, Go, kube_get, kube_update, kube_status_update, get_cr, set_cr,
}

pub record PersistMessages : Type 0 where
  pub fetching : String
  pub after_conflict : String
  pub refetching : String
  pub updating : String

module _ (p : Platform) where
  abbrev pub retry_on_latest : Organization → Go Unit
  retry_on_latest obj = do
    latest ← wrap "re-get after status conflict" (kube_get p obj.metadata.name)
    kube_status_update p (record latest { status = obj.status })
    pure tt

  abbrev pub retry_status : Organization → Result Organization → Go Unit
  retry_status obj (ok updated) = set_cr (λ _. updated)
  retry_status obj (err e) = if api_is_conflict e then retry_on_latest obj else throw e

  -- The object that is updated is `cr` at each call.
  unfoldable pub update_status_with_retry : Go Unit
  update_status_with_retry = do
    obj ← get_cr
    answer ← attempt (kube_status_update p obj)
    retry_status obj answer

  unfoldable pub with_external_name : Organization → String → Organization
  with_external_name o id = record o { metadata = p.set_external_name o.metadata id }

  abbrev pub update_again : PersistMessages → String → String → Go Organization
  update_again m name id = do
    latest ← wrap m.refetching (kube_get p name)
    wrap m.after_conflict (kube_update p (with_external_name latest id))

  abbrev pub after_update :
      PersistMessages → String → String → Result Organization → Go Organization
  after_update m name id (ok latest) = pure latest
  after_update m name id (err e) =
      if api_is_conflict e then update_again m name id else throw (wrapped m.updating e)

  -- Get the latest object, set its external name and update it, once more after a conflict.
  unfoldable pub persist_external_name : PersistMessages → String → Go Organization
  persist_external_name m id = do
    cr ← get_cr
    latest ← wrap m.fetching (kube_get p cr.metadata.name)
    answer ← attempt (kube_update p (with_external_name latest id))
    after_update m cr.metadata.name id answer
