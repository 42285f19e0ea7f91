-- ===== src/Prelude/Sets.antt =====
-- Lists of texts as sets: when inclusion and equal size give equality.
use custome_provider_mongo_d.Prelude.Tests.{if◌then◌else◌, nat_eq}
use custome_provider_mongo_d.Prelude.Lists.{length, member, all_in, keys_of}
use Prim.Native.Nat.{suc, ◌≤◌}
use Prim.Native.String.{String}
use mathlib.Core.Path.{◌≡◌, refl, sym, ◌∙◌}
use mathlib.Core.Bool.{true, false, Bool}
use mathlib.Core.List.{List, [], ◌∷◌}
use native.Mathlib.Omega.{arith}
use text.Mathlib.Text.{◌==◌}
use text.Mathlib.TextEquality.{eq_iff}

-- No text is listed twice.
abbrev pub NodupTexts : List String → Type 0
NodupTexts [] = Unit
NodupTexts (x ∷ l) = (member l x ≡ false) × NodupTexts l

abbrev pub SameTexts : List String → List String → Type 0
SameTexts a b = (x : String) → member a x ≡ member b x

-- The list without a text.
without : String → List String → List String
without x [] = []
without x (y ∷ l) = let rest = without x l in if y == x then rest else y ∷ rest

member-without :
    (x y : String) (l : List String)
    → member (without x l) y ≡ (if x == y then false else member l y)
unfolding without
member-without x y [] = ground arith
member-without x y (z ∷ l) =
    ground (arith, member-without x y l, eq_iff z x, eq_iff z y, eq_iff x y)

length-without_le : (x : String) (l : List String) → length (without x l) ≤ length l
unfolding without
length-without_le x [] = omega arith
length-without_le x (y ∷ l) = ground (arith, length-without_le x l)

length-without_lt :
    (x : String) (l : List String) → member l x ≡ true → suc (length (without x l)) ≤ length l
unfolding without
length-without_lt x [] h = absurd (grind arith)
length-without_lt x (y ∷ l) h =
    ground (arith, eq_iff y x, length-without_lt x l, length-without_le x l)

pub all_in-member :
    (a b : List String) (x : String) → all_in a b ≡ true → member b x ≡ true → member a x ≡ true
all_in-member a [] x h m = absurd (grind arith)
all_in-member a (y ∷ b) x h m = ground (arith, eq_iff y x, all_in-member a b x)

pub all_in_of_members :
    (a b : List String) → ((x : String) → member b x ≡ true → member a x ≡ true) → all_in a b ≡ true
all_in_of_members a [] h = refl
all_in_of_members a (y ∷ b) h =
    ground (arith, eq_iff y y, h y, all_in_of_members a b (λ x m. h x (ground arith)))

all_in-without :
    (x : String) (a b : List String)
    → member b x ≡ false
    → all_in a b ≡ true
    → all_in (without x a) b ≡ true
all_in-without x a b absent h =
    all_in_of_members (without x a) b
      (λ y m. ground (arith, member-without x y a, eq_iff x y, all_in-member a b y h m))

-- A set is at most as large as a list that includes it.
pub length-le_of_all_in :
    (a b : List String) → NodupTexts b → all_in a b ≡ true → length b ≤ length a
length-le_of_all_in a [] u h = omega arith
length-le_of_all_in a (x ∷ b) u h = omega (
  arith,
  length-without_lt x a (ground arith),
  length-le_of_all_in (without x a) b u.1 (all_in-without x a b u.0 (ground arith)),
)

-- A list that includes a set and is no longer than it has no other members.
pub all_in_of_length :
    (a b : List String)
    → NodupTexts b
    → all_in a b ≡ true
    → length a ≤ length b
    → (x : String) → member a x ≡ true
    → member b x ≡ true
all_in_of_length [] [] u h le x m = absurd (grind arith)
all_in_of_length (y ∷ a) [] u h le x m = absurd (omega arith)
all_in_of_length a (y ∷ b) u h le x m = ground (
  arith,
  eq_iff y x,
  member-without y x a,
  all_in_of_length (without y a) b u.1 (all_in-without y a b u.0 (ground arith))
      (omega (arith, length-without_lt y a (ground arith))) x,
)

pub Bool-eq_of_iff : (b c : Bool) → (b ≡ true → c ≡ true) → (c ≡ true → b ≡ true) → b ≡ c
Bool-eq_of_iff true c h k = sym (h refl)
Bool-eq_of_iff false true h k = k refl
Bool-eq_of_iff false false h k = refl

-- Equal length and inclusion decide equality of sets.
pub all_in-SameTexts :
    (a b : List String)
    → NodupTexts b
    → nat_eq (length a) (length b) ≡ true
    → all_in a b ≡ true
    → SameTexts a b
all_in-SameTexts a b u e h x =
    Bool-eq_of_iff (member a x) (member b x) (all_in_of_length a b u h (ground arith) x)
      (all_in-member a b x h)

pub test_of_SameTexts :
    (a b : List String)
    → NodupTexts a
    → NodupTexts b
    → SameTexts a b
    → (nat_eq (length a) (length b) ≡ true) × (all_in a b ≡ true)
test_of_SameTexts a b ua ub same =
    let ab : all_in a b ≡ true = all_in_of_members a b (λ x m. same x ∙ m) in
    let ba : all_in b a ≡ true = all_in_of_members b a (λ x m. sym (same x) ∙ m) in
    (ground (arith, length-le_of_all_in a b ub ab, length-le_of_all_in b a ua ba), ab)

-- The keys of a map are its entries, each once.
pub member-keys_of : (l : List String) (x : String) → member (keys_of l) x ≡ member l x
member-keys_of [] x = refl
member-keys_of (y ∷ l) x = ground (arith, eq_iff y x, member-keys_of l x, member-keys_of l y)

pub keys_of-NodupTexts : (l : List String) → NodupTexts (keys_of l)
keys_of-NodupTexts [] = tt
keys_of-NodupTexts (y ∷ l) = ground (arith, keys_of-NodupTexts l)
