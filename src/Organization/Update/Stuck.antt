-- ===== src/Organization/Update/Stuck.antt =====
-- Any number of rounds of `Observe` and `Update` on a resource with an unknown enforcement that is not wanted.
use custome_provider_mongo_d.Prelude.{
  ◌≡◌, refl, sym, ap, ◌∙◌, ℕ, zero, suc, String, Bool, true, false, none, List, arith, ◌||◌,
}
use custome_provider_mongo_d.Go.Exec.{
  Outcome, Exec, done, failed, panicked, ok, continue, wrap, when, ◌>>=◌,
}
use custome_provider_mongo_d.Go.Keeps.{Keeps, Keeps-bind, Keeps-when, Keeps-wrap}
use custome_provider_mongo_d.Api.Organization.{Organization, Time}
use custome_provider_mongo_d.Mongo.Service.{Credentials}
use custome_provider_mongo_d.Organization.Platform.{Platform, External, State, Call, call}
use custome_provider_mongo_d.Organization.Secrets.{fetch_org_credentials}
use custome_provider_mongo_d.Organization.Shows.{Shows, fetch-Shows}
use custome_provider_mongo_d.Organization.Status.{update_status_with_retry}
use custome_provider_mongo_d.Organization.Observe.{
  observe, observe_settled, is_up_to_date, record_secret, enforcement_matches,
}
use custome_provider_mongo_d.Organization.Observe.Storage.{IsSettled, observe-settled}
use custome_provider_mongo_d.Organization.Update.{
  update, update_org, migrate, update_key, update_enforcement, update_ips, desired_storage_type,
}
use custome_provider_mongo_d.Organization.Update.Unchanged.{
  enforced_view, update_key-Shows, update_ips-Shows,
}
use custome_provider_mongo_d.Organization.Update.Enforcement.{enforcement_never_settles}
use custome_provider_mongo_d.Organization.Update.Converges.{update_status-cr, migrate_settled}
use custome_provider_mongo_d.Organization.Update.Cycle.{observe-Settles, update_named}

module _ {S A B : Type 0} {P Q : S → Type 0} where
  -- What an action leaves is what is wanted, or leads to it.
  passed_on :
      (m : Exec S A) (f : A → Exec S B) (s : S)
      → P (m s).1
      → ((t : S) → P t → Q t)
      → ((a : A) (t : S) → P t → Q (f a t).1)
      → Q ((m >>= f) s).1
  unfolding ◌>>=◌
  passed_on m f s = passed (m s)
    where
      passed :
          (r : Outcome A × S)
          → P r.1
          → ((t : S) → P t → Q t)
          → ((a : A) (t : S) → P t → Q (f a t).1)
          → Q (continue r f).1
      passed (done a, t) h stop go = go a t h
      passed (failed e, t) h stop go = stop t h
      passed (panicked, t) h stop go = stop t h

-- The server keeps the object that it is sent.
pub record KeepsSent (p : Platform) : Type 0 where
  pub saves :
      (h : List Call) (o updated : Organization)
      → (p.kube h).update_status o ≡ ok updated
      → updated ≡ o

-- The resource is settled, its enforcement is not wanted, and not known.
pub record IsStuck (p : Platform) (o : Organization) : Type 0 where
  pub settled : IsSettled p o
  pub unwanted : o.spec.for_provider.network_access_config.api_access_list_required ≡ false
  pub unknown : o.status.at_provider.api_access_list_required ≡ none

module _ (p : Platform) (c : External) (keeps : KeepsSent p) where
  same-IsStuck :
      (a b : Organization)
      → b.spec ≡ a.spec
      → b.metadata ≡ a.metadata
      → b.status.at_provider.api_access_list_required
        ≡ a.status.at_provider.api_access_list_required
      → IsStuck p a
      → IsStuck p b
  same-IsStuck a b spec metadata known stuck = record {
    settled = record {
      named = rw metadata stuck.settled.named;
      live = rw metadata stuck.settled.live;
    };
    unwanted = rw spec stuck.unwanted;
    unknown = rw known stuck.unknown;
  }

  module _ (o : Organization) (stuck : IsStuck p o)
      (stored : o.status.at_provider.secret_storage_type
        ≡ desired_storage_type o.spec.for_provider.secret_storage_config) where
    abbrev Seen : State → Type 0
    Seen = Shows enforced_view (enforced_view o)

    enforcement-Seen :
        (org_id : String) (creds : Credentials) (now : Time)
        → Keeps Seen (update_enforcement p c org_id creds now)
    enforcement-Seen org_id creds now = record {
      at = λ s h.
          let untouched =
            enforcement_never_settles p c s org_id creds now
              (rw (ap (λ v. v.0) h.same) stuck.unwanted)
              (rw (ap (λ v. v.3) h.same) stuck.unknown) in
          rw untouched.1 h;
    }

    save-Seen :
        (changed : Bool)
        → Keeps Seen
            (when changed (wrap "updating status after update" (update_status_with_retry p)))
    save-Seen changed = Keeps-when changed _ (
        Keeps-wrap _ _ (record {
          at = λ s h. record {
            same = ap enforced_view (update_status-cr p c s (keeps.saves s.calls s.cr)) ∙ h.same;
          };
        }))

    steps-Seen :
        (org_id : String) (creds : Credentials) (now : Time) (migrated : Bool)
        → Keeps Seen (do
          key_changed ← update_key p c org_id creds
          enforcement_changed ← update_enforcement p c org_id creds now
          ips_changed ← update_ips p c org_id creds now
          when
              (migrated || key_changed || enforcement_changed || ips_changed)
              (wrap "updating status after update" (update_status_with_retry p)))
    steps-Seen org_id creds now migrated =
        Keeps-bind _ _ (update_key-Shows p c org_id creds) (λ key_changed.
          Keeps-bind _ _ (enforcement-Seen org_id creds now) (λ toggled.
            Keeps-bind _ _ (update_ips-Shows p c org_id creds now)
              (λ synced. save-Seen (migrated || key_changed || toggled || synced))))

    update_org-Seen : (org_id : String) (s : State) → s.cr ≡ o → Seen (update_org p c org_id s).1
    unfolding update_org ◌>>=◌
    update_org-Seen org_id s same =
        passed_on {P = Shows (λ r. r) o} {Q = Seen}
          (wrap "failed to fetch org credentials" (fetch_org_credentials p c s.cr)) _ s
          ((Keeps-wrap "failed to fetch org credentials" _ (fetch-Shows p c s.cr)).at s
            (record { same = same }))
          (λ t h. record { same = ap enforced_view h.same })
          (λ creds t h.
            passed_on {P = Shows (λ r. r) o} {Q = Seen} (migrate p c org_id creds) _ t
              (rw (migrate_settled p c org_id creds t (rw h.same stored)) h)
              (λ u k. record { same = ap enforced_view k.same })
              (λ migrated u k.
                (steps-Seen org_id creds (p.now s.calls) migrated).at u
                  (record { same = ap enforced_view k.same })))

  -- `Observe` of a stuck resource.
  observe_stuck :
      (s : State)
      → IsStuck p s.cr
      → (observe p c s).0 ≡ done (record { resource_exists = true; resource_up_to_date = false })
  unfolding observe_settled record_secret is_up_to_date enforcement_matches call
  observe_stuck s stuck =
      rw (observe-settled p c s stuck.settled) (ground (arith, stuck.unwanted, stuck.unknown))

  -- One round of the reconciler.
  abbrev pub round : State → State
  round s = (update p c (observe p c s).1).1

  abbrev pub rounds : ℕ → State → State
  rounds zero s = s
  rounds (suc n) s = rounds n (round s)

  round-IsStuck : (s : State) → IsStuck p s.cr → IsStuck p (round s).cr
  round-IsStuck s stuck =
      let first = observe-Settles p c s stuck.settled in
      let observed : IsStuck p (observe p c s).1.cr =
        same-IsStuck s.cr (observe p c s).1.cr first.spec first.metadata first.enforcement stuck in
      let steps = update_named p c (observe p c s).1 observed.settled.named in
      let seen =
        update_org-Seen (observe p c s).1.cr observed
          (first.stored
            ∙ ap (λ v. desired_storage_type v.for_provider.secret_storage_config) (sym first.spec))
          (p.get_external_name (observe p c s).1.cr.metadata) (observe p c s).1 refl in
      let same = ap (λ r. enforced_view r.1.cr) steps ∙ seen.same in
      same-IsStuck (observe p c s).1.cr (round s).cr (ap (λ v. v.0) same) (ap (λ v. v.1) same)
        (ap (λ v. v.3) same) observed

  -- After any number of rounds of `Observe` and `Update`, whatever these return, `Observe` still reports that a
  -- resource is not up to date, where it has its external name and is not being deleted, its enforcement is
  -- neither wanted nor known, and the server keeps the object that it is sent.
  pub enforcement_stays_unsettled :
      (n : ℕ) (s : State)
      → IsStuck p s.cr
      → (observe p c (rounds n s)).0
        ≡ done (record { resource_exists = true; resource_up_to_date = false })
  enforcement_stays_unsettled zero s stuck = observe_stuck s stuck
  enforcement_stays_unsettled (suc n) s stuck =
      enforcement_stays_unsettled n (round s) (round-IsStuck s stuck)
