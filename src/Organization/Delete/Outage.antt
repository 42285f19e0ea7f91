-- ===== src/Organization/Delete/Outage.antt =====
-- `Delete` with the Atlas client as its service: what the server's replies to its first check lead to.
use custome_provider_mongo_d.Prelude.{◌≡◌, ◌≢◌, ap, ◌∙◌, String, ◌<>◌, true}
use custome_provider_mongo_d.Go.Exec.{ok}
use custome_provider_mongo_d.Prelude.Text.{lower_contains}
use custome_provider_mongo_d.Api.Organization.{Time}
use custome_provider_mongo_d.Mongo.Service.{Service, Organization}
use custome_provider_mongo_d.Mongo.Http.{Transport, after_reply}
use custome_provider_mongo_d.Mongo.Client.{
  new_service, organization_result, verify_organization_deletion,
}
use custome_provider_mongo_d.Mongo.Client.Answers.{
  IsSent, IsOutage, organization_reply, verify_organization_deletion_outage,
  verify_organization_deletion_found,
}
use custome_provider_mongo_d.Organization.Delete.{precheck, cleanup_secrets_after_delete}
use custome_provider_mongo_d.Organization.Delete.Orphans.{
  check_answer, checked_state, precheck_retryable, precheck-still_exists,
}
use custome_provider_mongo_d.Organization.Platform.{Platform, External, State}

module _ (p : Platform) (c : External) (s : State) (t : Transport)
    (served : p.service s.calls c.credentials ≡ new_service t) (id : String) (now : Time) where
  check_answer_lem : check_answer p c id now s ≡ verify_organization_deletion t id
  unfolding new_service
  check_answer_lem = ap (λ (service : Service). service.verify_organization_deletion id) served

  module _ (given : id ≢ "") (sent : IsSent t ("/orgs/" <> id)) where
    -- An outage at the first check of a deletion (no reply, 429, or a status from 500 on) counts as a
    -- deleted organization: the handler goes straight on to the cleanup, which deletes the credentials
    -- and the finalizer, and never asks Atlas to delete the organization.
    pub precheck_outage :
        IsOutage (organization_reply t id)
        → precheck p c id now s ≡ cleanup_secrets_after_delete p c now (checked_state p c id now s)
    precheck_outage h =
        let (e, why, failed) = verify_organization_deletion_outage t id given sent h in
        precheck_retryable p c id now s "failed to verify organization deletion" e why
          (check_answer_lem ∙ failed)

    -- So it is for an organization that the server has, if its id has the digits 500 in it: the error
    -- says that the organization still exists, and its text, with the id, is searched for a status.
    pub precheck_found :
        (org : Organization)
        → after_reply (organization_result t) (organization_reply t id) ≡ ok org
        → lower_contains id "500" ≡ true
        → precheck p c id now s ≡ cleanup_secrets_after_delete p c now (checked_state p c id now s)
    precheck_found org found h =
        precheck-still_exists p c id now s h
          (check_answer_lem ∙ verify_organization_deletion_found t id given sent org found)
