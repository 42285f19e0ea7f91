-- ===== src/Go/Struct.antt =====
-- encoding/json's decoding into structs and slices of structs, and the documents of payloads.
use custome_provider_mongo_d.Prelude.{String, true, false, ◌&&◌, List, [], ◌∷◌}
use custome_provider_mongo_d.Go.Fault.{foreign}
use custome_provider_mongo_d.Go.Exec.{Result, err}
use custome_provider_mongo_d.Go.Json.{
  Json, null, str, arr, obj, Items, nil, cons, Fields, Document, malformed, json, Decoded,
  read_fields, checked,
}

module _ {ℓ} {R A : Type ℓ} where
  -- The values of one field of an object, in order, read into a field of the struct.
  unfoldable pub into_field :
      (Json → Decoded A → Decoded A)
      → String
      → (R → A)
      → (R → A → R)
      → Fields
      → Decoded R
      → Decoded R
  into_field read key get set fs d =
      let field =
        read_fields read key fs (record { value = get d.value; well_typed = d.well_typed }) in
      record { value = set d.value field.value; well_typed = field.well_typed }

module _ {ℓ} {R : Type ℓ} where
  -- A struct, by the reader of its fields. `null` leaves it as it is.
  abbrev pub read_struct : (Fields → Decoded R → Decoded R) → Json → Decoded R → Decoded R
  read_struct f (obj fs) d = f fs d
  read_struct f null d = d
  read_struct f _ d = record d { well_typed = false }

  -- The elements of an array, each read into a zero value.
  unfoldable pub read_elements : (Json → Decoded R → Decoded R) → R → Items → Decoded (List R)
  read_elements read zero_value nil = record { value = []; well_typed = true }
  read_elements read zero_value (cons j js) =
      let head = read j (record { value = zero_value; well_typed = true }) in
      let tail = read_elements read zero_value js in
      record { value = head.value ∷ tail.value; well_typed = head.well_typed && tail.well_typed }

  unfoldable pub read_slice :
      (Json → Decoded R → Decoded R) → R → Json → Decoded (List R) → Decoded (List R)
  unfolding read_elements
  read_slice read zero_value (arr js) d =
      let elements = read_elements read zero_value js in
      record { value = elements.value; well_typed = d.well_typed && elements.well_typed }
  read_slice read zero_value null d = record d { value = [] }
  read_slice read zero_value _ d = record d { well_typed = false }

  -- `json.Decode` of a document into a zero value.
  abbrev pub decode : (Json → Decoded R → Decoded R) → R → Document → Result R
  decode read zero_value malformed = err (foreign "invalid character in JSON")
  decode read zero_value (json j) =
      let d = read j (record { value = zero_value; well_typed = true }) in
      checked d.well_typed d.value

  -- `json.Unmarshal` with its error ignored: what could be read stays.
  abbrev pub decode_anyway : (Json → Decoded R → Decoded R) → R → Document → R
  decode_anyway read zero_value malformed = zero_value
  decode_anyway read zero_value (json j) =
      (read j (record { value = zero_value; well_typed = true })).value

abbrev pub strings : List String → Items
strings [] = nil
strings (s ∷ l) = cons (str s) (strings l)
