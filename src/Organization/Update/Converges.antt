-- ===== src/Organization/Update/Converges.antt =====
-- `Observe`, `Update` and `Observe` after one another.
use custome_provider_mongo_d.Organization.Secrets.{fetch_org_credentials}
use custome_provider_mongo_d.Organization.Update.Enforcement.{enforcement_settles}
use custome_provider_mongo_d.Go.Keeps.{Keeps-when, Keeps-wrap}
use custome_provider_mongo_d.Go.Runs.{Leads, Leads-bind, Keeps-Leads, leads_after}
use custome_provider_mongo_d.Organization.Shows.{Shows, fetch-Shows}
use custome_provider_mongo_d.Organization.Update.Addresses.{sync_ips_hides_failures}
use custome_provider_mongo_d.Organization.Observe.{ips_match, enforcement_matches}
use custome_provider_mongo_d.Organization.Network.{resolve_api_key_id}
use custome_provider_mongo_d.Prelude.{
  ◌≡◌, ◌≢◌, refl, ap, String, Bool, true, false, some, List, if◌then◌else◌, eq_refl, eq_iff, arith,
  ◌∷◌, ◌⊎◌, ◌||◌, none, ◌∙◌,
}
use custome_provider_mongo_d.Go.Exec.{
  Result, ok, err, done, ◌>>=◌, attempt, from_result, when, wrap, Outcome, failed, panicked,
}
use custome_provider_mongo_d.Api.Organization.{Organization, Time}
use custome_provider_mongo_d.Mongo.Service.{Credentials}
use custome_provider_mongo_d.Organization.Platform.{
  Platform, External, State, Call, call, kube_update_status, atlas, find_api_key_id, Go,
}
use custome_provider_mongo_d.Organization.Status.{update_status_with_retry, retry_status}
use custome_provider_mongo_d.Organization.Update.{
  migrate, update_ips, sync_found, sync_ips, desired_storage_type, none, update_org, update_key,
  update_enforcement,
}
use custome_provider_mongo_d.Organization.Update.Unchanged.{
  named_view, sync_found-Shows, enforced_view, update_key-Shows, update_ips-Shows,
  update_enforcement-Shows,
}

-- The server keeps the object that it is sent, and with the credentials of the organization Atlas finds
-- their key and accepts changes of the enforcement, whenever `Update` of this organization asks.
pub record Cooperates (p : Platform) (org_id : String) (creds : Credentials) : Type 0 where
  pub saves :
      (h : List Call) (o updated : Organization)
      → (p.kube h).update_status o ≡ ok updated
      → updated ≡ o
  pub finds :
      (h : List Call)
      → (id : String) × ((p.service h creds).find_api_key_id org_id creds.public_key "" ≡ ok id)
        × (id ≢ "")
  pub enforces :
      (h : List Call) (required : Bool)
      → (p.service h creds).set_org_admin_api_ip_enforcement org_id required ≡ ok tt

wrapped_done :
    (m : Go Credentials) (s : State) (creds : Credentials)
    → (m s).0 ≡ done creds
    → (wrap "failed to fetch org credentials" m s).0 ≡ done creds
unfolding call
wrapped_done m s creds = passed (m s)
  where
    passed :
        (r : Outcome Credentials × State)
        → r.0 ≡ done creds
        → (wrap "failed to fetch org credentials" (λ (_ : State). r) r.1).0 ≡ done creds
    passed (done a, t) h = h
    passed (failed e, t) h = absurd (ground (arith, h))
    passed (panicked, t) h = absurd (ground (arith, h))

saved-cr :
    (p : Platform) (o : Organization) (r : Result Organization) (t : State)
    → t.cr ≡ o
    → ((updated : Organization) → r ≡ ok updated → updated ≡ o)
    → ((attempt (λ (u : State). (from_result r, u)) >>= retry_status p o) t).1.cr ≡ o
unfolding call
saved-cr p o (ok updated) t same saves = saves updated refl
saved-cr p o (err e) t same saves = ground (arith, same)

-- The provisioned addresses are the desired ones, where they are provisioned at all.
abbrev pub addresses_match : Organization → Bool
addresses_match cr =
    if cr.spec.for_provider.network_access_config.enabled
    then ips_match cr.spec.for_provider.network_access_config.ips
        cr.status.at_provider.provisioned_ips
    else true

enforcement_of_view :
    (a b : Organization)
    → enforced_view a ≡ enforced_view b
    → enforcement_matches a ≡ enforcement_matches b
unfolding enforcement_matches
enforcement_of_view a b same = ground (arith, same)

module _ (p : Platform) (c : External) where
  pub update_status-cr :
      (s : State)
      → ((updated : Organization)
          → (p.kube s.calls).update_status s.cr ≡ ok updated
          → updated ≡ s.cr)
      → (update_status_with_retry p s).1.cr ≡ s.cr
  unfolding update_status_with_retry call
  update_status-cr s saves =
      saved-cr p s.cr ((p.kube s.calls).update_status s.cr)
        (record s { calls = kube_update_status s.cr ∷ s.calls }) refl saves

  pub migrate_settled :
      (org_id : String) (creds : Credentials) (s : State)
      → s.cr.status.at_provider.secret_storage_type
        ≡ desired_storage_type s.cr.spec.for_provider.secret_storage_config
      → migrate p c org_id creds s ≡ (done false, s)
  unfolding migrate call
  migrate_settled org_id creds s settled =
      ground (
        arith,
        settled,
        eq_refl (desired_storage_type s.cr.spec.for_provider.secret_storage_config),
      )

module _ (p : Platform) (c : External) (org_id : String) (creds : Credentials)
    (cooperates : Cooperates p org_id creds) where
  -- What `Observe` compares, all but the addresses right; and the addresses too.
  pub record IsNamed (o : Organization) (s : State) : Type 0 where
    pub view : named_view s.cr ≡ named_view o
    pub enforcement : enforcement_matches s.cr ≡ true

  pub record IsReady (o : Organization) (s : State) : Type 0 where
    pub named : IsNamed o s
    pub addresses : addresses_match s.cr ≡ true

  addresses-sync_found :
      (key_id : String) (now : Time) (s : State)
      → addresses_match (sync_found p c creds org_id now (some key_id) s).1.cr ≡ true
  addresses-sync_found key_id now s =
      let (returned, error, matches) = sync_ips_hides_failures p c creds org_id key_id now s in
      let spec : (sync_ips p c creds org_id key_id now s).1.cr.spec ≡ s.cr.spec =
        ap (λ v. v.0)
          ((sync_found-Shows p c creds org_id now (some key_id)).at s
            (record { same = refl })).same in
      ground (arith, spec, matches)

  addresses-update_ips :
      (now : Time) (s : State) → addresses_match (update_ips p c org_id creds now s).1.cr ≡ true
  unfolding update_ips resolve_api_key_id call
  addresses-update_ips now s =
      let (id, found, given) = cooperates.finds s.calls in
      ground (
        arith,
        found,
        given,
        eq_iff id "",
        addresses-sync_found id now
            (record s { calls = atlas creds (find_api_key_id org_id creds.public_key) ∷ s.calls }),
      )

  module _ (o : Organization)
      (stored : o.status.at_provider.secret_storage_type
        ≡ desired_storage_type o.spec.for_provider.secret_storage_config)
      (known : (o.spec.for_provider.network_access_config.api_access_list_required ≡ true)
        ⊎ (o.status.at_provider.api_access_list_required ≢ none)) where
    abbrev pub Unseen : State → Type 0
    Unseen = Shows (λ r. r) o

    abbrev Viewed : State → Type 0
    Viewed = Shows enforced_view (enforced_view o)

    migrate-Leads : Leads Unseen (migrate p c org_id creds) Unseen
    migrate-Leads = record {
      at = λ s a h d. rw (migrate_settled p c org_id creds s (rw h.same stored)) h;
    }

    update_key-Leads : Leads Unseen (update_key p c org_id creds) Viewed
    update_key-Leads = record {
      at = λ s a h d.
          (update_key-Shows p c org_id creds).at s (record { same = ap enforced_view h.same });
    }

    update_enforcement-Leads :
        (now : Time) → Leads Viewed (update_enforcement p c org_id creds now) (IsNamed o)
    update_enforcement-Leads now = record {
      at = λ s a h d. record {
        view =
            ((update_enforcement-Shows p c org_id creds now).at s
              (record { same = ap (λ v. (v.0, v.1, v.2)) h.same })).same;
        enforcement =
            enforcement_settles p c s org_id creds now
              (rw (ap (λ v. v.0) h.same, ap (λ v. v.3) h.same) known)
              (cooperates.enforces s.calls
                s.cr.spec.for_provider.network_access_config.api_access_list_required);
      };
    }

    update_ips-Leads :
        (now : Time) → Leads (IsNamed o) (update_ips p c org_id creds now) (IsReady o)
    update_ips-Leads now = record {
      at = λ s a h d. record {
        named =
            let same =
              ((update_ips-Shows p c org_id creds now).at s (record { same = refl })).same in
            record {
              view = ap (λ v. (v.0, v.1, v.2)) same ∙ h.view;
              enforcement = enforcement_of_view _ _ same ∙ h.enforcement;
            };
        addresses = addresses-update_ips now s;
      };
    }

    save-Leads :
        (changed : Bool)
        → Leads
            (IsReady o)
            (when changed (wrap "updating status after update" (update_status_with_retry p)))
            (IsReady o)
    save-Leads changed = Keeps-Leads _ (
        Keeps-when changed _ (
          Keeps-wrap _ _ (record {
            at = λ s h. record {
              named = record {
                view =
                    ap named_view (update_status-cr p c s (cooperates.saves s.calls s.cr))
                    ∙ h.named.view;
                enforcement =
                    ap enforcement_matches (update_status-cr p c s (cooperates.saves s.calls s.cr))
                    ∙ h.named.enforcement;
              };
              addresses =
                  ap addresses_match (update_status-cr p c s (cooperates.saves s.calls s.cr))
                  ∙ h.addresses;
            };
          })))

    steps-Leads :
        (now : Time)
        → Leads Unseen
            (do
              migrated ← migrate p c org_id creds
              key_changed ← update_key p c org_id creds
              enforcement_changed ← update_enforcement p c org_id creds now
              ips_changed ← update_ips p c org_id creds now
              when
                  (migrated || key_changed || enforcement_changed || ips_changed)
                  (wrap "updating status after update" (update_status_with_retry p)))
            (IsReady o)
    steps-Leads now = Leads-bind _ _ migrate-Leads (λ migrated.
        Leads-bind _ _ update_key-Leads (λ key_changed.
          Leads-bind _ _ (update_enforcement-Leads now) (λ toggled.
            Leads-bind _ _ (update_ips-Leads now)
              (λ synced. save-Leads (migrated || key_changed || toggled || synced)))))

    pub update_org-IsReady :
        (s : State)
        → Unseen s
        → (fetch_org_credentials p c s.cr s).0 ≡ done creds
        → (update_org p c org_id s).0 ≡ done tt
        → IsReady o (update_org p c org_id s).1
    unfolding update_org ◌>>=◌
    update_org-IsReady s unseen fetched returned =
        leads_after Unseen (IsReady o)
          (wrap "failed to fetch org credentials" (fetch_org_credentials p c s.cr)) _ s creds
          (wrapped_done (fetch_org_credentials p c s.cr) s creds fetched)
          ((Keeps-wrap "failed to fetch org credentials" _ (fetch-Shows p c s.cr)).at s unseen)
          (steps-Leads (p.now s.calls)) tt returned
