-- ===== src/Tests/Helpers.antt =====
-- The theorems about the helper functions at concrete inputs.
use custome_provider_mongo_d.Prelude.{◌≡◌, refl, ◌↔◌, true, [], ◌∷◌}
use custome_provider_mongo_d.Organization.Names.{equal_string_sets}
use custome_provider_mongo_d.Organization.Names.Sets.{equal_string_sets_iff}
use custome_provider_mongo_d.Prelude.Sets.{SameTexts}

equal_string_sets_iff_example :
    (equal_string_sets ("a" ∷ "b" ∷ []) ("b" ∷ "a" ∷ []) ≡ true)
    ↔ SameTexts ("a" ∷ "b" ∷ []) ("b" ∷ "a" ∷ [])
equal_string_sets_iff_example =
    equal_string_sets_iff ("a" ∷ "b" ∷ []) ("b" ∷ "a" ∷ []) (refl, (refl, tt)) (refl, (refl, tt))
