-- ===== src/Prelude/Bits.antt =====
-- The bit operations of the native numbers at variables: single bits, masks and fields.
mod Digits
use Digits.{and_halves, or_halves}
use Prim.Native.Nat.{
  ℕ, zero, suc, ◌+◌, ◌-◌, ◌*◌, ◌/◌, ◌%◌, ◌^◌, ◌≤◌, ◌<◌, min, max, bit_and, bit_or, bit_and-bitwise,
}
use mathlib.Core.Path.{◌≡◌, refl, ◌∙◌, sym, ap}
use native.Mathlib.Omega.{arith}
use native.Mathlib.Nat.{pow-suc, one-le-pow, mul-add-mod_self_left, mod-eq_of_lt, mod-lt}
use native.Mathlib.Nat.{div-add-mod, div-div-eq-div-mul, div-one}

-- Bit `n` of a number, as 0 or 1.
abbrev pub bit : ℕ → ℕ → ℕ
bit zero x = x % 2
bit (suc n) x = bit n (x / 2)

pub bit-le-one : (n x : ℕ) → bit n x ≤ 1
bit-le-one zero x = omega arith
bit-le-one (suc n) x = bit-le-one n (x / 2)

pub bit-bit_and : (n a b : ℕ) → bit n (bit_and a b) ≡ min (bit n a) (bit n b)
bit-bit_and zero a b = omega (arith, and_halves a b)
bit-bit_and (suc n) a b = ap (bit n) half ∙ bit-bit_and n (a / 2) (b / 2)
  where
    half : bit_and a b / 2 ≡ bit_and (a / 2) (b / 2)
    half = omega (arith, and_halves a b)

pub bit-bit_or : (n a b : ℕ) → bit n (bit_or a b) ≡ max (bit n a) (bit n b)
bit-bit_or zero a b = omega (arith, or_halves a b)
bit-bit_or (suc n) a b = ap (bit n) half ∙ bit-bit_or n (a / 2) (b / 2)
  where
    half : bit_or a b / 2 ≡ bit_or (a / 2) (b / 2)
    half = omega (arith, or_halves a b)

-- `~x` of a `w`-bit word.
abbrev pub complement : ℕ → ℕ → ℕ
complement w x = 2 ^ w - 1 - x

pub bit-complement : (w n x : ℕ) → n < w → x < 2 ^ w → bit n (complement w x) ≡ 1 - bit n x
bit-complement zero n x h lt = absurd (omega arith)
bit-complement (suc w) zero x h lt = omega (arith, pow-suc 2 w)
bit-complement (suc w) (suc n) x h lt =
    ap (bit n) half ∙ bit-complement w n (x / 2) (omega arith) (omega (arith, pow-suc 2 w))
  where
    half : complement (suc w) x / 2 ≡ complement w (x / 2)
    half = omega (arith, pow-suc 2 w)

bit_zero : (n : ℕ) → bit n 0 ≡ 0
bit_zero zero = refl
bit_zero (suc n) = bit_zero n

-- Bits at and above the width of a word are clear.
pub bit_above : (w n x : ℕ) → w ≤ n → x < 2 ^ w → bit n x ≡ 0
bit_above zero n x h lt = ap (bit n) (omega arith) ∙ bit_zero n
bit_above (suc w) zero x h lt = absurd (omega arith)
bit_above (suc w) (suc n) x h lt = bit_above w n (x / 2) (omega arith) (omega (arith, pow-suc 2 w))

-- The remainder by a power of two, from the lowest bit on.
mod_halves : (w x : ℕ) → x % 2 ^ suc w ≡ x / 2 % 2 ^ w * 2 + x % 2
mod_halves w x =
    ap (λ (t : ℕ). t % 2 ^ suc w) split
    ∙ mul-add-mod_self_left (2 ^ suc w) (x / 2 / 2 ^ w) (x / 2 % 2 ^ w * 2 + x % 2)
    ∙ mod-eq_of_lt (omega (arith, pow-suc 2 w, mod-lt (x / 2) (one-le-pow w 2 (omega arith))))
  where
    split : x ≡ 2 ^ suc w * (x / 2 / 2 ^ w) + (x / 2 % 2 ^ w * 2 + x % 2)
    split =
        omega
          (arith, div-add-mod (x / 2) (2 ^ w), ap (λ (t : ℕ). t * (x / 2 / 2 ^ w)) (pow-suc 2 w))

-- A word cut to `w` bits keeps the bits below `w`.
pub bit-mod : (w n x : ℕ) → n < w → bit n (x % 2 ^ w) ≡ bit n x
bit-mod zero n x h = absurd (omega arith)
bit-mod (suc w) zero x h = omega (arith, mod_halves w x)
bit-mod (suc w) (suc n) x h = ap (bit n) half ∙ bit-mod w n (x / 2) (omega arith)
  where
    half : x % 2 ^ suc w / 2 ≡ x / 2 % 2 ^ w
    half = omega (arith, mod_halves w x)

bit_and-zero_fuel : (n x : ℕ) → x ≤ n → bit_and x 0 ≡ 0
bit_and-zero_fuel n zero h = refl
bit_and-zero_fuel zero (suc x) h = absurd (omega arith)
bit_and-zero_fuel (suc n) (suc x) h =
    omega (arith, and_halves (suc x) 0, bit_and-zero_fuel n (suc x / 2) (omega arith))

pub bit_and-zero : (x : ℕ) → bit_and x 0 ≡ 0
bit_and-zero x = bit_and-zero_fuel x x (omega arith)

bit_or-zero_fuel : (n x : ℕ) → x ≤ n → bit_or x 0 ≡ x
bit_or-zero_fuel n zero h = refl
bit_or-zero_fuel zero (suc x) h = absurd (omega arith)
bit_or-zero_fuel (suc n) (suc x) h =
    omega (arith, or_halves (suc x) 0, bit_or-zero_fuel n (suc x / 2) (omega arith))

pub bit_or-zero : (x : ℕ) → bit_or x 0 ≡ x
bit_or-zero x = bit_or-zero_fuel x x (omega arith)

-- `x & (2 ^ k - 1)` is the remainder.
pub bit_and_low : (k x : ℕ) → bit_and x (2 ^ k - 1) ≡ x % 2 ^ k
bit_and_low zero x = omega (arith, bit_and-zero x)
bit_and_low (suc k) x = omega (
  arith,
  and_halves x (2 ^ suc k - 1),
  ap (bit_and (x / 2)) half,
  bit_and_low k (x / 2),
  mod_halves k x,
  pow-suc 2 k,
  one-le-pow k 2,
)
  where
    half : (2 ^ suc k - 1) / 2 ≡ 2 ^ k - 1
    half = omega (arith, pow-suc 2 k)

-- `x & m` for a mask `m` of `w` ones above `k` zeros keeps that field.
pub bit_and_field : (k w x : ℕ) → bit_and x ((2 ^ w - 1) * 2 ^ k) ≡ x / 2 ^ k % 2 ^ w * 2 ^ k
bit_and_field zero w x =
    ap (bit_and x) (omega arith)
    ∙ bit_and_low w x
    ∙ omega (arith, ap (λ (t : ℕ). t % 2 ^ w) (div-one x))
bit_and_field (suc k) w x = omega (
  arith,
  and_halves x ((2 ^ w - 1) * 2 ^ suc k),
  double,
  ap (bit_and (x / 2)) half,
  bit_and_field k w (x / 2),
  ap (λ (t : ℕ). t % 2 ^ w * 2 ^ k) shift,
  ap (λ (t : ℕ). x / 2 ^ suc k % 2 ^ w * t) (pow-suc 2 k),
)
  where
    double : (2 ^ w - 1) * 2 ^ suc k ≡ (2 ^ w - 1) * 2 ^ k * 2
    double = omega (arith, ap (λ (t : ℕ). (2 ^ w - 1) * t) (pow-suc 2 k))

    half : (2 ^ w - 1) * 2 ^ suc k / 2 ≡ (2 ^ w - 1) * 2 ^ k
    half = omega (arith, double)

    shift : x / 2 / 2 ^ k ≡ x / 2 ^ suc k
    shift = div-div-eq-div-mul x 2 (2 ^ k) ∙ ap (λ (t : ℕ). x / t) (omega (arith, pow-suc 2 k))

-- `x & (1 << n)` is bit `n`, in its place.
pub bit_and_single : (n x : ℕ) → bit_and x (2 ^ n) ≡ bit n x * 2 ^ n
bit_and_single zero x = bit_and_low 1 x ∙ omega arith
bit_and_single (suc n) x = omega (
  arith,
  and_halves x (2 ^ suc n),
  ap (bit_and (x / 2)) half,
  bit_and_single n (x / 2),
  pow-suc 2 n,
  ap (λ (t : ℕ). bit n (x / 2) * t) (pow-suc 2 n),
)
  where
    half : 2 ^ suc n / 2 ≡ 2 ^ n
    half = omega (arith, pow-suc 2 n)

-- `(q << k) | r` is a sum where `r` fits below.
pub bit_or_fields : (k q r : ℕ) → r < 2 ^ k → bit_or (q * 2 ^ k) r ≡ q * 2 ^ k + r
bit_or_fields zero q r h = ap (bit_or (q * 1)) (omega arith) ∙ bit_or-zero (q * 1) ∙ omega arith
bit_or_fields (suc k) q r h = omega (
  arith,
  or_halves (q * 2 ^ suc k) r,
  double,
  ap (λ (t : ℕ). bit_or t (r / 2)) half,
  bit_or_fields k q (r / 2) (omega (arith, pow-suc 2 k)),
)
  where
    double : q * 2 ^ suc k ≡ q * 2 ^ k * 2
    double = omega (arith, ap (λ (t : ℕ). q * t) (pow-suc 2 k))

    half : q * 2 ^ suc k / 2 ≡ q * 2 ^ k
    half = omega (arith, double)

-- Words of `w` bits are closed under the operations.
pub bit_and-le : (n a b : ℕ) → a ≤ n → bit_and a b ≤ a
bit_and-le n zero b h = omega (arith, bit_and-bitwise 0 b)
bit_and-le zero (suc a) b h = absurd (omega arith)
bit_and-le (suc n) (suc a) b h =
    omega (arith, and_halves (suc a) b, bit_and-le n (suc a / 2) (b / 2) (omega arith))

pub bit_or-lt : (w a b : ℕ) → a < 2 ^ w → b < 2 ^ w → bit_or a b < 2 ^ w
bit_or-lt zero a b p q = omega (
  arith,
  bit_or-zero 0,
  ap (λ (t : ℕ). bit_or t b) (let e : a ≡ 0 = omega arith in e),
  ap (bit_or 0) (let e : b ≡ 0 = omega arith in e),
)
bit_or-lt (suc w) a b p q = omega (
  arith,
  or_halves a b,
  pow-suc 2 w,
  bit_or-lt w (a / 2) (b / 2) (omega (arith, pow-suc 2 w)) (omega (arith, pow-suc 2 w)),
)

bit_or_comm_fuel : (n a b : ℕ) → a + b ≤ n → bit_or a b ≡ bit_or b a
bit_or_comm_fuel zero a b h =
    let ea : a ≡ 0 = omega arith in let eb : b ≡ 0 = omega arith in rw (ea, eb)
bit_or_comm_fuel (suc n) a b h =
    omega (arith, or_halves a b, or_halves b a, bit_or_comm_fuel n (a / 2) (b / 2) (omega arith))

pub bit_or_comm : (a b : ℕ) → bit_or a b ≡ bit_or b a
bit_or_comm a b = bit_or_comm_fuel (a + b) a b (omega arith)
