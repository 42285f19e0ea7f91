-- ===== src/Organization/Names/Mask.antt =====
-- What `maskAPIKey` hides.
use Prim.Native.String.{len, slice}
use text.Mathlib.TextLemmas.{append_assoc}
use text.Mathlib.TextPositions.{len-append, slice-append_left, slice-append_right}
use mathlib.Core.Path.{ap₂}
use custome_provider_mongo_d.Prelude.{◌≡◌, ◌∙◌, sym, ap, false, ◌+◌, ◌-◌, String, ◌<>◌, arith, ltb}
use custome_provider_mongo_d.Organization.Names.{mask_api_key}

module _ (a m b : String) (ha : len a ≡ 4) (hb : len b ≡ 4) where
  abbrev key : String
  key = a <> (m <> b)

  len-key : len key ≡ len (a <> m) + 4
  len-key = omega (arith, len-append a (m <> b), len-append m b, len-append a m)

  key_head : slice key 0 4 ≡ a
  key_head = ap (λ n. slice key 0 n) (sym ha) ∙ slice-append_left a (m <> b)

  key_tail : slice key (len key - 4) (len key) ≡ b
  key_tail =
      ap₂ (λ i j. slice key i j) (omega (arith, len-key)) (omega (arith, len-key))
      ∙ ap (λ k. slice k (len (a <> m)) (len (a <> m) + len b)) (sym (append_assoc a m b))
      ∙ slice-append_right (a <> m) b

  long_enough : ltb (len key) 8 ≡ false
  long_enough = ground (arith, len-key, len-append a m)

-- Of a key of at least eight bytes the first four and the last four are shown and the middle is
-- replaced by four stars, whatever its length; a key of eight bytes has no middle.
mask_api_key_lem :
    (a m b : String) → len a ≡ 4 → len b ≡ 4 → mask_api_key (a <> (m <> b)) ≡ a <> ("****" <> b)
unfolding mask_api_key
mask_api_key_lem a m b ha hb =
    rw (long_enough a m b ha hb)
      (ap₂ (λ s t. s <> ("****" <> t)) (key_head a m b ha hb) (key_tail a m b ha hb))
