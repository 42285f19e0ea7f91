-- ===== src/Prelude/Lists.antt =====
-- Go's `len` on slices, over the native numbers, and sets of texts as `map[string]…` keys.
use Prim.Native.Nat.{ℕ, suc, ◌+◌}
use mathlib.Core.List.{List, [], ◌∷◌, ◌++◌}
use mathlib.Core.Path.{◌≡◌}
use mathlib.Core.Bool.{Bool, true, false, ◌&&◌, ◌||◌}
use native.Mathlib.Omega.{arith}
use Prim.Native.String.{String}
use text.Mathlib.Text.{◌==◌}
use custome_provider_mongo_d.Prelude.Tests.{if◌then◌else◌}

module _ {ℓ} {A : Type ℓ} where
  abbrev pub length : List A → ℕ
  length [] = 0
  length (x ∷ xs) = suc (length xs)

  pub length-append : (xs ys : List A) → length (xs ++ ys) ≡ length xs + length ys
  length-append [] ys = omega arith
  length-append (x ∷ xs) ys = omega (arith, length-append xs ys)

-- `_, ok := m[x]`
abbrev pub member : List String → String → Bool
member [] x = false
member (y ∷ m) x = y == x || member m x

-- `m[x] = …`
abbrev pub insert_key : String → List String → List String
insert_key x m = if member m x then m else x ∷ m

-- The keys of the map that a loop over `l` fills.
abbrev pub keys_of : List String → List String
keys_of [] = []
keys_of (x ∷ l) = insert_key x (keys_of l)

-- Every member of `b` is a key of `a`.
abbrev pub all_in : List String → List String → Bool
all_in a [] = true
all_in a (x ∷ b) = member a x && all_in a b
