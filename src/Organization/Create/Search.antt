-- ===== src/Organization/Create/Search.antt =====
-- `Create` with the Atlas client as its service: which reply to its search lets it create.
use custome_provider_mongo_d.Mongo.Client.Listed.{AnsweredNone}
use custome_provider_mongo_d.Prelude.{◌≡◌, ◌≢◌, ◌⊎◌, inl, inr, sym, ap, ◌∙◌, ◌<>◌}
use custome_provider_mongo_d.Go.Url.{query_escape}
use custome_provider_mongo_d.Mongo.Service.{Service}
use custome_provider_mongo_d.Mongo.Http.{Transport}
use custome_provider_mongo_d.Mongo.Client.{new_service, get_organization_by_name}
use custome_provider_mongo_d.Mongo.Client.Answers.{
  IsSent, Answered404, search_reply, get_organization_by_name_iff,
  get_organization_by_name-is_not_found_error,
}
use custome_provider_mongo_d.Organization.Create.{create}
use custome_provider_mongo_d.Organization.Create.Once.{create-IsNew, search_answer}
use custome_provider_mongo_d.Organization.Observe.Calls.{is_observing}
use custome_provider_mongo_d.Organization.Trace.{Only}
use custome_provider_mongo_d.Organization.Platform.{Platform, External, State}

module _ (p : Platform) (c : External) (s : State) (t : Transport)
    (served : p.service s.calls c.credentials ≡ new_service t) where
  search_answer_lem : search_answer p c s ≡ get_organization_by_name t s.cr.metadata.name
  unfolding new_service
  search_answer_lem =
      ap (λ (service : Service). service.get_organization_by_name s.cr.metadata.name) served

  -- With the Atlas client, `Create` makes a call other than reads and saves of the Organization object
  -- only where the server answered its search for the resource's name with 404, or, with a status below
  -- 400, no content or a document that lists no organization: an unreachable server, a rejected key, a
  -- failure of the server or an answer that cannot be read creates nothing.
  pub create-search_reply :
      s.cr.metadata.name ≢ ""
      → IsSent t ("/orgs?name=" <> query_escape s.cr.metadata.name)
      → (Answered404 (search_reply t s.cr.metadata.name)
          ⊎ AnsweredNone t (search_reply t s.cr.metadata.name))
        ⊎ Only is_observing s.calls (create p c s).1
  create-search_reply given sent = elim (create-IsNew p c s) [
    | inr only ↦ inr only
    | inl new ↦ elim new.unknown [
      | inl none_known ↦ inl (
          (get_organization_by_name_iff t s.cr.metadata.name given sent).0
            (sym search_answer_lem ∙ none_known))
      | inr (e, missing) ↦ absurd (
          get_organization_by_name-is_not_found_error t s.cr.metadata.name e given sent
            (sym search_answer_lem ∙ missing))
    ]
  ]
