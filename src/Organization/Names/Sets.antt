-- ===== src/Organization/Names/Sets.antt =====
-- What `equalStringSets` decides.
use custome_provider_mongo_d.Prelude.{
  ℕ, zero, suc, ◌≡◌, ◌↔◌, refl, String, true, List, [], ◌∷◌, arith,
}
use custome_provider_mongo_d.Prelude.Lists.{length, member, all_in}
use custome_provider_mongo_d.Prelude.Sets.{
  NodupTexts, SameTexts, all_in-SameTexts, test_of_SameTexts,
}
use custome_provider_mongo_d.Organization.Names.{equal_string_sets}

-- On two lists without repetition, `equalStringSets` is true exactly when they have the same members.
pub equal_string_sets_iff :
    (a b : List String)
    → NodupTexts a
    → NodupTexts b
    → (equal_string_sets a b ≡ true) ↔ SameTexts a b
unfolding equal_string_sets
equal_string_sets_iff a b ua ub = (
  λ h. all_in-SameTexts a b ub (ground arith) (ground arith),
  λ same. ground (arith, test_of_SameTexts a b ua ub same),
)

abbrev pub replicate : ℕ → String → List String
replicate zero x = []
replicate (suc n) x = x ∷ replicate n x

length-replicate : (n : ℕ) (x : String) → length (replicate n x) ≡ n
length-replicate zero x = refl
length-replicate (suc n) x = omega (arith, length-replicate n x)

all_in-replicate :
    (n : ℕ) (x : String) (a : List String) → member a x ≡ true → all_in a (replicate n x) ≡ true
all_in-replicate zero x a m = refl
all_in-replicate (suc n) x a m = ground (arith, all_in-replicate n x a m)

-- With repetition the function is true on lists with different members: for every list `a` and every
-- member `x` of it, `a` counts as equal to as many copies of `x`.
equal_string_sets-replicate :
    (a : List String) (x : String)
    → member a x ≡ true
    → equal_string_sets a (replicate (length a) x) ≡ true
unfolding equal_string_sets
equal_string_sets-replicate a x m =
    ground (arith, all_in-replicate (length a) x a m, length-replicate (length a) x)
