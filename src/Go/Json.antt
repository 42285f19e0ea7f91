-- ===== src/Go/Json.antt =====
-- JSON documents as encoding/json reads them into the provider's structs.
-- A document is the value that its bytes parse to, or malformed. The numbers that the provider reads
-- are natural. A key matches a struct field if the two are equal up to case, a `null` leaves the
-- field alone, a value of another type leaves it alone too and makes the whole decoding an error,
-- and of two matching keys the later one stays.
use custome_provider_mongo_d.Prelude.{
  ℕ, ◌+◌, String, Bool, true, false, ◌&&◌, List, [], ◌∷◌, leb, nat_eq, if◌then◌else◌, ◌≡◌, refl,
}
use custome_provider_mongo_d.Prelude.Text.{codes}
use custome_provider_mongo_d.Go.Fault.{foreign}
use custome_provider_mongo_d.Go.Exec.{Result, ok, err}

mutual
  pub data Json : Type 0 where
    null : Json
    bool : Bool → Json
    num : ℕ → Json
    str : String → Json
    arr : Items → Json
    obj : Fields → Json

  pub data Items : Type 0 where
    nil : Items
    cons : Json → Items → Items

  pub data Fields : Type 0 where
    end : Fields
    field : String → Json → Fields → Fields

pub data Document : Type 0 where
  malformed : Document
  json : Json → Document

-- `fold_code` is exact on every code point that folds to an ASCII letter.
fold_code : ℕ → ℕ
fold_code c =
    if leb b'A' c && leb c b'Z'
    then c + 32
    else if nat_eq c 0x17f
    then b's'
    else if nat_eq c 0x212a
    then b'k'
    else c

codes_fold_eq : List ℕ → List ℕ → Bool
unfolding fold_code
codes_fold_eq [] [] = true
codes_fold_eq (a ∷ as') (b ∷ bs) = nat_eq (fold_code a) (fold_code b) && codes_fold_eq as' bs
codes_fold_eq _ _ = false

unfoldable pub equal_fold : String → String → Bool
unfolding codes_fold_eq
equal_fold s t = codes_fold_eq (codes s) (codes t)

-- The value of a field so far, and whether no value had the wrong type.
pub record Decoded {ℓ} (A : Type ℓ) : Type ℓ where
  pub value : A
  pub well_typed : Bool

module _ {ℓ} {A : Type ℓ} where
  -- The fields of an object, read into one struct field by the reader of its type.
  unfoldable pub read_fields :
      (Json → Decoded A → Decoded A) → String → Fields → Decoded A → Decoded A
  read_fields read k end d = d
  read_fields read k (field j v fs) d =
      read_fields read k fs (if equal_fold j k then read v d else d)

  -- A struct field of a document that is to be an object. `null` decodes to the zero value.
  unfoldable pub read_field : (Json → Decoded A → Decoded A) → String → A → Json → Decoded A
  unfolding read_fields equal_fold
  read_field read k zero_value (obj fs) =
      read_fields read k fs (record { value = zero_value; well_typed = true })
  read_field read k zero_value null = record { value = zero_value; well_typed = true }
  read_field read k zero_value _ = record { value = zero_value; well_typed = false }

abbrev pub read_string : Json → Decoded String → Decoded String
read_string (str s) d = record d { value = s }
read_string null d = d
read_string _ d = record d { well_typed = false }

abbrev pub read_bool : Json → Decoded Bool → Decoded Bool
read_bool (bool b) d = record d { value = b }
read_bool null d = d
read_bool _ d = record d { well_typed = false }

abbrev pub read_number : Json → Decoded ℕ → Decoded ℕ
read_number (num n) d = record d { value = n }
read_number null d = d
read_number _ d = record d { well_typed = false }

-- The error of a decoding, if there is one.
abbrev pub checked {ℓ} : {A : Type ℓ} → Bool → A → Result A
checked true a = ok a
checked false a = err (foreign "json: cannot unmarshal value into Go struct field")

fold_run : equal_fold "PublicKey" "publickey" ≡ true
unfolding equal_fold
fold_run = refl
