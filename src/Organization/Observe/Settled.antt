-- ===== src/Organization/Observe/Settled.antt =====
-- What `Observe` reports of a resource that has its external name and is not being deleted.
use custome_provider_mongo_d.Prelude.{
  ◌≡◌, ◌↔◌, refl, ◌∙◌, sym, String, Bool, true, false, some, List, map, eq_iff, arith,
  if◌then◌else◌, ◌⊎◌,
}
use custome_provider_mongo_d.Prelude.Lists.{keys_of}
use custome_provider_mongo_d.Prelude.Sets.{
  SameTexts, all_in-SameTexts, test_of_SameTexts, member-keys_of, keys_of-NodupTexts,
}
use custome_provider_mongo_d.Api.Organization.{Organization, IpAccessEntry}
use custome_provider_mongo_d.Organization.Observe.{
  ips_match, ip_of, is_up_to_date, secret_name_matches, enforcement_matches, desired_secret_name,
}

-- The addresses count as equal exactly when the desired and the provisioned entries name the same
-- ones, however often and in whatever order.
pub ips_match_iff :
    (desired provisioned : List IpAccessEntry)
    → (ips_match desired provisioned ≡ true) ↔ SameTexts (map ip_of desired) (map ip_of provisioned)
unfolding ips_match
ips_match_iff desired provisioned = (
  λ h x.
      sym (member-keys_of (map ip_of desired) x)
      ∙ sym (same_of_test h x)
      ∙ member-keys_of (map ip_of provisioned) x,
  λ same.
      let (lengths, included) =
        test_of_SameTexts current wanted (keys_of-NodupTexts (map ip_of provisioned))
          (keys_of-NodupTexts (map ip_of desired))
          (λ x.
            member-keys_of (map ip_of provisioned) x
            ∙ sym (same x)
            ∙ sym (member-keys_of (map ip_of desired) x)) in
      ground arith,
)
  where
    wanted : List String
    wanted = keys_of (map ip_of desired)

    current : List String
    current = keys_of (map ip_of provisioned)

    same_of_test : ips_match desired provisioned ≡ true → SameTexts current wanted
    same_of_test h =
        all_in-SameTexts current wanted (keys_of-NodupTexts (map ip_of desired)) (ground arith)
          (ground arith)

-- What makes a resource up to date, as a statement.
pub record IsSynced (cr : Organization) : Type 0 where
  pub name_matches :
      (cr.status.at_provider.secret_name ≡ "")
      ⊎ (cr.status.at_provider.secret_name ≡ desired_secret_name cr)
  pub enforcement :
      cr.status.at_provider.api_access_list_required
      ≡ some cr.spec.for_provider.network_access_config.api_access_list_required
  pub addresses :
      cr.spec.for_provider.network_access_config.enabled ≡ true
      → SameTexts
          (map ip_of cr.spec.for_provider.network_access_config.ips)
          (map ip_of cr.status.at_provider.provisioned_ips)

enforcement_matches_iff :
    (cr : Organization)
    → (enforcement_matches cr ≡ true) ↔ (
        cr.status.at_provider.api_access_list_required
        ≡ some cr.spec.for_provider.network_access_config.api_access_list_required)
unfolding enforcement_matches
enforcement_matches_iff cr = (λ h. ground arith, λ h. ground arith)

addresses_test :
    (enabled : Bool) (desired provisioned : List IpAccessEntry)
    → (enabled ≡ true → SameTexts (map ip_of desired) (map ip_of provisioned))
    → (if enabled then ips_match desired provisioned else true) ≡ true
addresses_test true desired provisioned h = (ips_match_iff desired provisioned).1 (h refl)
addresses_test false desired provisioned h = refl

-- `Observe` finds a resource up to date exactly when the recorded secret name is empty or the desired
-- one, the enforcement is known to be the desired one, and, where address provisioning is enabled,
-- the provisioned addresses are the desired ones as a set.
pub is_up_to_date_iff : (cr : Organization) → (is_up_to_date cr ≡ true) ↔ IsSynced cr
unfolding is_up_to_date secret_name_matches
is_up_to_date_iff cr = (
  λ h. record {
    name_matches = ground (
      arith,
      eq_iff cr.status.at_provider.secret_name "",
      eq_iff cr.status.at_provider.secret_name (desired_secret_name cr),
    );
    enforcement = (enforcement_matches_iff cr).0 (ground arith);
    addresses = λ on. (ips_match_iff _ _).0 (ground arith);
  },
  λ h. ground (
    arith,
    eq_iff cr.status.at_provider.secret_name "",
    eq_iff cr.status.at_provider.secret_name (desired_secret_name cr),
    (enforcement_matches_iff cr).1 h.enforcement,
    addresses_test cr.spec.for_provider.network_access_config.enabled
        cr.spec.for_provider.network_access_config.ips cr.status.at_provider.provisioned_ips
        h.addresses,
  ),
)
