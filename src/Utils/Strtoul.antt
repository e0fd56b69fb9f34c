-- ===== src/Utils/Strtoul.antt =====
-- hypervisor/common/utils.c: `strtoul`, with the text that it leaves in `*endptr`.
mod Tests
pub mod Laws
use avisor.Prelude.{
  ℕ, zero, suc, ◌+◌, ◌-◌, ◌*◌, ◌%◌, ◌^◌, Bool, true, false, ◌&&◌, ◌||◌, Option, none, some, List,
  [], ◌∷◌, ◌==◌, if◌then◌else◌, ltb, leb,
}
use avisor.Utils.{isdigit}

-- `unsigned int digit`, or none for a character that ends the number
abbrev pub digit_of : ℕ → Option ℕ
digit_of c =
    if isdigit c
    then some (c - 0x30)
    else if leb 0x61 c && leb c 0x7a
    then some (c - 0x61 + 10)
    else if leb 0x41 c && leb c 0x5a
    then some (c - 0x41 + 10)
    else none

-- `str[0] == '0' && (str[1] == 'x' || str[1] == 'X')`
pub has_prefix : List ℕ → Bool
has_prefix [] = false
has_prefix (a ∷ []) = false
has_prefix (a ∷ b ∷ s) = (a == 0x30) && ((b == 0x78) || (b == 0x58))

abbrev pub skip_two : List ℕ → List ℕ
skip_two [] = []
skip_two (a ∷ []) = []
skip_two (a ∷ b ∷ s) = s

-- The loop: the result with the text that is left, or none for `return ULONG_MAX`. The character
-- that ends the number has been stepped over.
pub digits : (base : ℕ) → List ℕ → (result : ℕ) → Option (ℕ × List ℕ)
digits base [] result = some (result, [])
digits base (c ∷ str) result = elim (digit_of c) [
  | none ↦ some (result, str)
  | some digit ↦
      let next = (result * base + digit) % 2 ^ 64 in
      let rest = digits base str next in
      if leb base digit then some (result, str) else if ltb next result then none else rest
]

-- From the sign on: the result, and what `*endptr` is set to, if it is.
pub signed_number : (base : ℕ) → Bool × List ℕ → ℕ × Option (List ℕ)
unfolding digits
signed_number base (negative, str) = elim (digits base str 0) [
  | none ↦ (2 ^ 64 - 1, none)
  | some (result, rest) ↦ ((if negative then (2 ^ 64 - result) % 2 ^ 64 else result), some rest)
]

-- `if (str[0] == '+') ... else if (str[0] == '-') ...`
pub sign_of : List ℕ → Bool × List ℕ
sign_of [] = (false, [])
sign_of (c ∷ str) =
    if c == 0x2b then (false, str) else if c == 0x2d then (true, str) else (false, c ∷ str)

pub strtoul : List ℕ → (base : ℕ) → ℕ × Option (List ℕ)
unfolding has_prefix signed_number sign_of
strtoul str base =
    let auto_detect = ((base == 0) || (base == 16)) && has_prefix str in
    if auto_detect
    then signed_number 16 (sign_of (skip_two str))
    else signed_number base (sign_of str)
