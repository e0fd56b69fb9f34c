-- ===== src/Utils/Decimal/Tests.antt =====
-- Numerals, and the theorem at one.
use avisor.Prelude.{◌≡◌, refl, arith, [], ◌∷◌}
use avisor.Utils.{strtol_deci, number, skip_space, take_sign, accumulate}
use avisor.Utils.Decimal.{minus, strtol_deci_lem}

-- "+7x", "-" and a numeral that is out of range
numerals :
    (strtol_deci (0x2b ∷ 0x37 ∷ 0x78 ∷ []) ≡ 7)
    × (strtol_deci (0x2d ∷ []) ≡ 0)
    × (strtol_deci (
          0x39 ∷ 0x39 ∷ 0x39 ∷ 0x39 ∷ 0x39 ∷ 0x39 ∷ 0x39 ∷ 0x39 ∷ 0x39 ∷ 0x39 ∷ 0x39 ∷ 0x39 ∷ 0x39
          ∷ 0x39 ∷ 0x39 ∷ 0x39 ∷ 0x39 ∷ 0x39 ∷ 0x39 ∷ 0x39 ∷ [])
        ≡ 0x7fffffffffffffff)
unfolding strtol_deci number skip_space take_sign accumulate
numerals = (refl, refl, refl)

-- " -42;"
strtol_deci_lem_example : strtol_deci (0x20 ∷ 0x2d ∷ 0x34 ∷ 0x32 ∷ 0x3b ∷ []) ≡ 0xffffffffffffffd6
strtol_deci_lem_example =
    strtol_deci_lem (0x20 ∷ []) minus 4 (2 ∷ []) (0x3b ∷ []) (refl, tt)
      (omega arith, (omega arith, tt)) refl
