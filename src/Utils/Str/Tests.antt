-- ===== src/Utils/Str/Tests.antt =====
-- `strcmp` and its kin at a few strings.
use avisor.Prelude.{◌≡◌, refl, [], ◌∷◌}
use avisor.Utils.Str.{difference, strcmp, strncpy}

-- Padding, and no end when the string fills the buffer.
strncpy_pads :
    (strncpy (9 ∷ 9 ∷ 9 ∷ []) (65 ∷ []) 3 ≡ 65 ∷ 0 ∷ 0 ∷ [])
    × (strncpy (9 ∷ 9 ∷ 9 ∷ []) (65 ∷ 66 ∷ 67 ∷ []) 2 ≡ 65 ∷ 66 ∷ 9 ∷ [])
unfolding strncpy
strncpy_pads = (refl, refl)

-- The result is the difference of the first characters that differ.
comparisons : (strcmp (97 ∷ []) (97 ∷ 98 ∷ []) ≡ difference 0 98) × (strcmp (98 ∷ []) (97 ∷ []) ≡ 1)
unfolding strcmp
comparisons = (refl, refl)
