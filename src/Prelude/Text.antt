-- ===== src/Prelude/Text.antt =====
-- Go's `strings.ToLower` and `strings.Contains`, over the code points of a text.
-- `lower_code` is exact on every code point whose lower case is an ASCII letter (A to Z, U+0130 and
-- U+212A); it leaves the other non-ASCII letters alone, which no ASCII pattern can tell apart.
use Prim.Native.Nat.{ℕ, ◌+◌}
use Prim.Native.Char.{code}
use Prim.Native.String.{String, ◌++◌ as ◌<>◌}
use mathlib.Core.Path.{◌≡◌, refl, ◌∙◌, ap}
use mathlib.Core.Bool.{Bool, true, false, ◌&&◌, ◌||◌}
use mathlib.Core.List.{List, [], ◌∷◌, ◌++◌, map, map-append}
use native.Mathlib.Omega.{arith}
use text.Mathlib.TextLemmas.{nil-append, cons-append}
use custome_provider_mongo_d.Prelude.Tests.{leb, nat_eq, if◌then◌else◌}

abbrev pub codes : String → List ℕ
codes String.[] = []
codes (String.◌∷◌ c s) = code c ∷ codes s

abbrev pub lower_code : ℕ → ℕ
lower_code c =
    if leb b'A' c && leb c b'Z'
    then c + 32
    else if nat_eq c 0x130
    then b'i'
    else if nat_eq c 0x212a
    then b'k'
    else c

abbrev pub has_prefix : List ℕ → List ℕ → Bool
has_prefix s [] = true
has_prefix [] (p ∷ ps) = false
has_prefix (c ∷ cs) (p ∷ ps) = nat_eq c p && has_prefix cs ps

unfoldable pub contains_codes : List ℕ → List ℕ → Bool
contains_codes [] p = has_prefix [] p
contains_codes (c ∷ cs) p = has_prefix (c ∷ cs) p || contains_codes cs p

-- `strings.Contains(strings.ToLower(s), sub)`.
unfoldable pub lower_contains : String → String → Bool
lower_contains s sub = contains_codes (map lower_code (codes s)) (codes sub)

-- `strings.Contains(s, sub)`.
unfoldable pub contains : String → String → Bool
contains s sub = contains_codes (codes s) (codes sub)

pub codes-append : (s t : String) → codes (s <> t) ≡ codes s ++ codes t
codes-append String.[] t = ap codes (nil-append t)
codes-append (String.◌∷◌ c s) t =
    ap codes (cons-append c s t) ∙ ap (λ r. code c ∷ r) (codes-append s t)

has_prefix-append : (s t p : List ℕ) → has_prefix s p ≡ true → has_prefix (s ++ t) p ≡ true
has_prefix-append s t [] h = refl
has_prefix-append [] t (p ∷ ps) h = ground arith
has_prefix-append (c ∷ cs) t (p ∷ ps) h = ground (arith, has_prefix-append cs t ps)

contains_codes-append_left :
    (s t p : List ℕ) → contains_codes t p ≡ true → contains_codes (s ++ t) p ≡ true
unfolding contains_codes
contains_codes-append_left [] t p h = h
contains_codes-append_left (c ∷ cs) t p h = ground (arith, contains_codes-append_left cs t p h)

contains_codes-append_right :
    (s t p : List ℕ) → contains_codes s p ≡ true → contains_codes (s ++ t) p ≡ true
unfolding contains_codes
contains_codes-append_right [] [] p h = h
contains_codes-append_right [] (d ∷ ds) [] h = refl
contains_codes-append_right [] (d ∷ ds) (p ∷ ps) h = ground arith
contains_codes-append_right (c ∷ cs) t p h =
    ground (arith, has_prefix-append (c ∷ cs) t p, contains_codes-append_right cs t p)

-- What a part of a text contains, the text contains.
pub lower_contains-append_left :
    (s t p : String) → lower_contains t p ≡ true → lower_contains (s <> t) p ≡ true
unfolding lower_contains
lower_contains-append_left s t p h =
    rw (codes-append s t, map-append) (contains_codes-append_left _ _ _ h)

pub lower_contains-append_right :
    (s t p : String) → lower_contains s p ≡ true → lower_contains (s <> t) p ≡ true
unfolding lower_contains
lower_contains-append_right s t p h =
    rw (codes-append s t, map-append) (contains_codes-append_right _ _ _ h)

pub contains-append_left : (s t p : String) → contains t p ≡ true → contains (s <> t) p ≡ true
unfolding contains
contains-append_left s t p h = rw (codes-append s t) (contains_codes-append_left _ _ _ h)

pub contains-append_right : (s t p : String) → contains s p ≡ true → contains (s <> t) p ≡ true
unfolding contains
contains-append_right s t p h = rw (codes-append s t) (contains_codes-append_right _ _ _ h)

-- `unicode.IsSpace`
is_space : ℕ → Bool
is_space c =
    (leb 9 c && leb c 13)
    || nat_eq c 0x20
    || nat_eq c 0x85
    || nat_eq c 0xa0
    || nat_eq c 0x1680
    || (leb 0x2000 c && leb c 0x200a)
    || nat_eq c 0x2028
    || nat_eq c 0x2029
    || nat_eq c 0x202f
    || nat_eq c 0x205f
    || nat_eq c 0x3000

all_space : List ℕ → Bool
unfolding is_space
all_space [] = true
all_space (c ∷ cs) = is_space c && all_space cs

-- `strings.TrimSpace(s) == ""`
unfoldable pub is_blank : String → Bool
unfolding all_space
is_blank s = all_space (codes s)

lower_contains_run : lower_contains "Retryable ERROR" "error" ≡ true
unfolding lower_contains contains_codes
lower_contains_run = refl
