-- ===== src/Prelude/Bits/Digits.antt =====
-- The recursion of the bit operations on the lowest digit.
use Prim.Native.Nat.{
  ℕ, zero, suc, ◌+◌, ◌-◌, ◌*◌, ◌/◌, ◌%◌, ◌≤◌, min, max, bit_and, bit_or, digits, bit_and-bitwise,
  bit_or-bitwise,
}
use mathlib.Core.Path.{◌≡◌, refl, ap, ◌∙◌}
use native.Mathlib.Omega.{arith}

-- The numbers' digits from the lowest on, for a first number of at most `fuel` digits.
module _ (rest : ℕ → ℕ) (op : ℕ → ℕ → ℕ) where
  -- One round more than is needed changes nothing.
  spare_round : (fuel x y : ℕ) → x ≤ fuel → digits rest op (suc fuel) x y ≡ digits rest op fuel x y
  spare_round zero zero y h = refl
  spare_round (suc fuel) zero y h = refl
  spare_round zero (suc x) y h = absurd (omega arith)
  spare_round (suc fuel) (suc x) y h =
      omega (arith, spare_round fuel (suc x / 2) (y / 2) (omega arith))

  -- Nor do many more.
  spare_rounds :
      (more fuel all x y : ℕ)
      → all ≡ more + fuel
      → x ≤ fuel
      → digits rest op all x y ≡ digits rest op fuel x y
  spare_rounds zero fuel all x y e h = ap (λ (n : ℕ). digits rest op n x y) (omega arith)
  spare_rounds (suc more) fuel zero x y e h = absurd (omega arith)
  spare_rounds (suc more) fuel (suc all) x y e h =
      spare_round all x y (omega arith) ∙ spare_rounds more fuel all x y (omega arith) h

  lowest_digit :
      (x y : ℕ)
      → digits rest op (suc x) (suc x) y
        ≡ op (suc x % 2) (y % 2) + 2 * digits rest op (suc x / 2) (suc x / 2) (y / 2)
  lowest_digit x y =
      let half : ℕ = suc x / 2 in
      omega (arith, spare_rounds (x - half) half x half (y / 2) (omega arith) (omega arith))

pub and_halves : (x y : ℕ) → bit_and x y ≡ bit_and (x / 2) (y / 2) * 2 + min (x % 2) (y % 2)
and_halves zero y = omega (arith, bit_and-bitwise 0 y, bit_and-bitwise 0 (y / 2))
and_halves (suc x) y = omega (
  arith,
  bit_and-bitwise (suc x) y,
  bit_and-bitwise (suc x / 2) (y / 2),
  lowest_digit (λ _. 0) min x y,
)

pub or_halves : (x y : ℕ) → bit_or x y ≡ bit_or (x / 2) (y / 2) * 2 + max (x % 2) (y % 2)
or_halves zero y = omega (arith, bit_or-bitwise 0 y, bit_or-bitwise 0 (y / 2))
or_halves (suc x) y = omega (
  arith,
  bit_or-bitwise (suc x) y,
  bit_or-bitwise (suc x / 2) (y / 2),
  lowest_digit (λ d. d) max x y,
)
