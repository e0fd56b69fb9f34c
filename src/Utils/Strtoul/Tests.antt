-- ===== src/Utils/Strtoul/Tests.antt =====
-- Numerals, and the theorems at some.
use avisor.Prelude.{◌≡◌, refl, some, [], ◌∷◌}
use avisor.Utils.Strtoul.{strtoul, has_prefix, sign_of, signed_number, digits}

-- "12;3" loses its ';' with the number, and "7" in base 0 is no number.
leftovers :
    (strtoul (0x31 ∷ 0x32 ∷ 0x3b ∷ 0x33 ∷ []) 10 ≡ (12, some (0x33 ∷ [])))
    × (strtoul (0x37 ∷ []) 0 ≡ (0, some []))
unfolding strtoul has_prefix sign_of signed_number digits
leftovers = (refl, refl)
