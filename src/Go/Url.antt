-- ===== src/Go/Url.antt =====
-- `url.QueryEscape` and `url.PathEscape`: the bytes of a text's UTF-8 form that are not kept are
-- written as `%` and two hexadecimal digits.
use Prim.Native.Nat.{◌/◌, ◌%◌}
use Prim.Native.Char.{code}
use custome_provider_mongo_d.Prelude.{
  ℕ, ◌+◌, ◌≡◌, refl, String, ◌<>◌, Bool, ◌&&◌, ◌||◌, List, [], ◌∷◌, ltb, leb, nat_eq, if◌then◌else◌,
}
use custome_provider_mongo_d.Go.Fault.{digit}

abbrev is_unreserved : ℕ → Bool
is_unreserved c =
    leb b'a' c && leb c b'z'
    || leb b'A' c && leb c b'Z'
    || leb b'0' c && leb c b'9'
    || nat_eq c b'-'
    || nat_eq c b'_'
    || nat_eq c b'.'
    || nat_eq c b'~'

-- What a path segment keeps besides: `$`, `&`, `+`, `:`, `=` and `@`.
abbrev is_kept_in_path : ℕ → Bool
is_kept_in_path c =
    is_unreserved c
    || nat_eq c 0x24
    || nat_eq c 0x26
    || nat_eq c 0x2b
    || nat_eq c 0x3a
    || nat_eq c 0x3d
    || nat_eq c 0x40

hex_digit : ℕ → String
hex_digit d =
    if ltb d 10
    then digit d
    else if nat_eq d 10
    then "A"
    else if nat_eq d 11
    then "B"
    else if nat_eq d 12
    then "C"
    else if nat_eq d 13
    then "D"
    else if nat_eq d 14
    then "E"
    else "F"

escape_bytes : List ℕ → String
escape_bytes [] = ""
escape_bytes (b ∷ bs) = "%" <> (hex_digit (b / 16) <> (hex_digit (b % 16) <> escape_bytes bs))

utf8 : ℕ → List ℕ
utf8 c =
    if ltb c 0x80
    then c ∷ []
    else if ltb c 0x800
    then (0xc0 + c / 64) ∷ (0x80 + c % 64) ∷ []
    else if ltb c 0x10000
    then (0xe0 + c / 4096) ∷ (0x80 + c / 64 % 64) ∷ (0x80 + c % 64) ∷ []
    else (0xf0 + c / 262144) ∷ (0x80 + c / 4096 % 64) ∷ (0x80 + c / 64 % 64) ∷ (0x80 + c % 64) ∷ []

unfoldable pub path_escape : String → String
unfolding escape_bytes utf8 hex_digit digit
path_escape String.[] = ""
path_escape (String.◌∷◌ c s) =
    (if is_kept_in_path (code c) then String.◌∷◌ c "" else escape_bytes (utf8 (code c)))
    <> path_escape s

unfoldable pub query_escape : String → String
unfolding escape_bytes utf8 hex_digit digit
query_escape String.[] = ""
query_escape (String.◌∷◌ c s) =
    (if is_unreserved (code c)
      then String.◌∷◌ c ""
      else if nat_eq (code c) 0x20
      then "+"
      else escape_bytes (utf8 (code c)))
    <> query_escape s

query_run : query_escape "a b/ü" ≡ "a+b%2F%C3%BC"
unfolding query_escape escape_bytes utf8 hex_digit digit
query_run = refl
