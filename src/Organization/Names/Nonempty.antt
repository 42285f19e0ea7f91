-- ===== src/Organization/Names/Nonempty.antt =====
-- The names of AWS secrets are not empty.
use Prim.Native.String.{len}
use text.Mathlib.TextPositions.{len-append}
use custome_provider_mongo_d.Prelude.{
  ◌≡◌, ◌<>◌, ◌==◌, sym, ap, ◌∙◌, String, Option, none, some, false, eq_iff, arith, if◌then◌else◌,
}
use custome_provider_mongo_d.Api.Organization.{Organization, AwsSecretsManagerReference}
use custome_provider_mongo_d.Organization.Names.{prefixed_name, secret_prefix, final_secret_name}

prefixed_nonempty : (x : String) → ((secret_prefix <> x) == "") ≡ false
prefixed_nonempty x = ground (
  arith,
  eq_iff (secret_prefix <> x) "",
  λ (e : secret_prefix <> x ≡ ""). sym (len-append secret_prefix x) ∙ ap len e,
)

pub prefixed_name-nonempty :
    (r : AwsSecretsManagerReference) (otherwise : String)
    → (prefixed_name r otherwise == "") ≡ false
prefixed_name-nonempty r otherwise =
    elim (r.secret_name)
      as (λ given.
        ((elim given [
          | none ↦ secret_prefix <> otherwise
          | some name ↦ if name == "" then secret_prefix <> otherwise else secret_prefix <> name
        ])
          == "")
        ≡ false) [
          | none ↦ prefixed_nonempty otherwise
          | some name ↦ ground (arith, prefixed_nonempty otherwise, prefixed_nonempty name)
        ]

pub final_secret_name-nonempty : (cr : Organization) → (final_secret_name cr == "") ≡ false
unfolding final_secret_name
final_secret_name-nonempty cr = by_config cr.spec.for_provider.aws_secrets_config
  where
    by_config :
        (config : Option AwsSecretsManagerReference)
        → ((elim config [
          | none ↦ secret_prefix <> cr.metadata.name
          | some r ↦ prefixed_name r cr.metadata.name
        ])
            == "")
          ≡ false
    by_config none = prefixed_nonempty cr.metadata.name
    by_config (some r) = prefixed_name-nonempty r cr.metadata.name
