-- ===== src/Utils.antt =====
-- hypervisor/common/utils.c: numbers in text. A string is the list of its characters before the
-- final 0, and `char` is unsigned, as on the AArch64 that the code is for.
pub mod Decimal
pub mod Strtoul
pub mod Str
pub mod Mem
use avisor.Prelude.{
  ℕ, zero, suc, ◌+◌, ◌-◌, ◌*◌, ◌/◌, ◌%◌, ◌^◌, Bool, true, false, not, ◌&&◌, ◌||◌, Option, none,
  some, List, [], ◌∷◌, ◌==◌, if◌then◌else◌, ltb, leb,
}

-- `isspace`
abbrev pub isspace : ℕ → Bool
isspace c = (c == 0x20) || (c == 0xc) || (c == 0xa) || (c == 0xd) || (c == 0x9) || (c == 0xb)

-- `isdigit`, and the test of the loop
abbrev pub isdigit : ℕ → Bool
isdigit c = leb 0x30 c && leb c 0x39

-- LONG_MAX and LONG_MIN, as the words of a `uint64_t`
abbrev pub long_max : ℕ
long_max = 2 ^ 63 - 1

abbrev pub long_min : ℕ
long_min = 2 ^ 63

-- The first loop: what is left after the white space.
pub skip_space : List ℕ → List ℕ
skip_space [] = []
skip_space (c ∷ s) = let rest = skip_space s in if isspace c then rest else c ∷ s

-- `if (c == '-') ... else if (c == '+') ...`
pub take_sign : List ℕ → Bool × List ℕ
take_sign [] = (false, [])
take_sign (c ∷ s) =
    if c == 0x2d then (true, s) else if c == 0x2b then (false, s) else (false, c ∷ s)

-- The loop over the digits from the accumulator `acc` on; `none` is `any = -1`, an overflow.
pub accumulate : (limit : ℕ) → List ℕ → ℕ → Option ℕ
accumulate limit [] acc = some acc
accumulate limit (c ∷ s) acc =
    let digit = c - 0x30 in
    let cutoff = limit / 10 in
    let too_big = ltb cutoff acc || ((acc == cutoff) && ltb (limit % 10) digit) in
    let rest = accumulate limit s ((acc * 10 + digit) % 2 ^ 64) in
    if isdigit c then (if too_big then none else rest) else some acc

-- From the sign and the text after it on: the result, as the word of the `int64_t`.
pub number : Bool × List ℕ → ℕ
unfolding accumulate
number (neg, s) =
    let limit : ℕ = if neg then long_min else long_max in
    elim (accumulate limit s 0) [
      | none ↦ limit
      | some acc ↦ if neg then (2 ^ 64 - acc) % 2 ^ 64 else acc
    ]

pub strtol_deci : List ℕ → ℕ
unfolding number skip_space take_sign
strtol_deci nptr = number (take_sign (skip_space nptr))
