-- ===== src/Utils/Strtoul/Laws.antt =====
-- `strtoul` against the value of a numeral in a base.
use avisor.Prelude.{
  ℕ, ◌+◌, ◌-◌, ◌*◌, ◌%◌, ◌^◌, ◌≤◌, ◌<◌, ◌≡◌, refl, ap, ◌∙◌, sym, inl, inr, ◌⊎◌, arith, Bool, true,
  false, Option, none, some, List, [], ◌∷◌, ◌==◌, ◌||◌, if◌then◌else◌, ltb, leb, Option-cases,
}
use native.Mathlib.Nat.{mul-le-mul_left}
use avisor.Utils.Decimal.{Sign, bare, plus, minus, signed, is_minus}
use avisor.Utils.Strtoul.{digit_of, has_prefix, digits, sign_of, signed_number, strtoul}

-- The value of some digits, after those that make `acc`.
abbrev pub value_in : (base acc : ℕ) → List ℕ → ℕ
value_in base acc [] = acc
value_in base acc (d ∷ ds) = value_in base (acc * base + d) ds

abbrev pub AreBelow : ℕ → List ℕ → Type 0
AreBelow base [] = Unit
AreBelow base (d ∷ ds) = (d < base) × AreBelow base ds

-- A digit as a character, with small letters.
abbrev pub char_of : ℕ → ℕ
char_of d = if ltb d 10 then d + 0x30 else d + 0x57

abbrev pub chars : List ℕ → List ℕ → List ℕ
chars [] rest = rest
chars (d ∷ ds) rest = char_of d ∷ chars ds rest

digit_of-char_of : (d : ℕ) → d < 36 → digit_of (char_of d) ≡ some d
digit_of-char_of d h = ground arith

value_in-le : (base acc : ℕ) (ds : List ℕ) → 0 < base → acc ≤ value_in base acc ds
value_in-le base acc [] h = omega arith
value_in-le base acc (d ∷ ds) h =
    omega (arith, mul-le-mul_left {m = 1} {n = base} acc h, value_in-le base (acc * base + d) ds h)

-- What ends a number in the base.
abbrev pub is_end : ℕ → Option ℕ → Bool
is_end base none = true
is_end base (some digit) = leb base digit

abbrev pub EndsIn : ℕ → List ℕ → Type 0
EndsIn base [] = Unit
EndsIn base (c ∷ s) = is_end base (digit_of c) ≡ true

-- The text after the character that ends the number.
abbrev pub after_end : List ℕ → List ℕ
after_end [] = []
after_end (c ∷ s) = s

digits-end :
    (base : ℕ) (rest : List ℕ) (acc : ℕ)
    → EndsIn base rest
    → digits base rest acc ≡ some (acc, after_end rest)
unfolding digits
digits-end base [] acc h = refl
digits-end base (c ∷ s) acc h = elim (Option-cases (digit_of c)) [
  | inl other ↦ rw (digits, other)
  | inr (digit, e) ↦ rw (digits, e, ap (is_end base) (sym e) ∙ h)
]

digits_lem :
    (base : ℕ) (ds rest : List ℕ) (acc : ℕ)
    → 0 < base
    → base ≤ 36
    → AreBelow base ds
    → EndsIn base rest
    → value_in base acc ds < 2 ^ 64
    → digits base (chars ds rest) acc ≡ some (value_in base acc ds, after_end rest)
unfolding digits
digits_lem base [] rest acc lo hi below ends small = digits-end base rest acc ends
digits_lem base (d ∷ ds) rest acc lo hi (lt, below) ends small =
    let grows = value_in-le base (acc * base + d) ds lo in
    let more = mul-le-mul_left {m = 1} {n = base} acc lo in
    let same : (acc * base + d) % 2 ^ 64 ≡ acc * base + d = omega arith in
    let no_end : leb base d ≡ false = ground arith in
    let no_wrap : ltb (acc * base + d) acc ≡ false = ground arith in
    rw (digits, digit_of-char_of d (omega arith), no_end, same, no_wrap)
      (digits_lem base ds rest (acc * base + d) lo hi below ends small)

-- The word of a number after a sign.
abbrev pub word_of : Sign → ℕ → ℕ
word_of bare n = n
word_of plus n = n
word_of minus n = (2 ^ 64 - n) % 2 ^ 64

sign_of-signed :
    (sign : Sign) (d : ℕ) (text : List ℕ)
    → d < 36
    → sign_of (signed sign (char_of d ∷ text)) ≡ (is_minus sign, char_of d ∷ text)
unfolding sign_of
sign_of-signed bare d text lt = ground arith
sign_of-signed plus d text lt = refl
sign_of-signed minus d text lt = refl

signed_number_lem :
    (base : ℕ) (sign : Sign) (d : ℕ) (ds rest : List ℕ)
    → 0 < base
    → base ≤ 36
    → AreBelow base (d ∷ ds)
    → EndsIn base rest
    → value_in base 0 (d ∷ ds) < 2 ^ 64
    → signed_number base (sign_of (signed sign (chars (d ∷ ds) rest)))
      ≡ (word_of sign (value_in base 0 (d ∷ ds)), some (after_end rest))
unfolding signed_number
signed_number_lem base sign d ds rest lo hi (lt, below) ends small =
    ap (signed_number base) (sign_of-signed sign d (chars ds rest) (omega arith)) ∙ result sign
  where
    number : digits base (chars (d ∷ ds) rest) 0 ≡ some (value_in base 0 (d ∷ ds), after_end rest)
    number = digits_lem base (d ∷ ds) rest 0 lo hi (lt, below) ends small

    result :
        (s : Sign)
        → signed_number base (is_minus s, chars (d ∷ ds) rest)
          ≡ (word_of s (value_in base 0 (d ∷ ds)), some (after_end rest))
    result bare = rw (signed_number, number)
    result plus = rw (signed_number, number)
    result minus = rw (signed_number, number)

-- After "0x", in base 0 or 16, `strtoul` reads at most one sign and a hexadecimal numeral in the
-- same way.
strtoul-hex :
    (base : ℕ) (sign : Sign) (d : ℕ) (ds rest : List ℕ)
    → (base ≡ 0) ⊎ (base ≡ 16)
    → AreBelow 16 (d ∷ ds)
    → EndsIn 16 rest
    → value_in 16 0 (d ∷ ds) < 2 ^ 64
    → strtoul (0x30 ∷ 0x78 ∷ signed sign (chars (d ∷ ds) rest)) base
      ≡ (word_of sign (value_in 16 0 (d ∷ ds)), some (after_end rest))
unfolding strtoul has_prefix
strtoul-hex base sign d ds rest is below ends small =
    let detected : ((base == 0) || (base == 16)) ≡ true = ground arith in
    rw (strtoul, detected)
      (signed_number_lem 16 sign d ds rest (omega arith) (omega arith) below ends small)
