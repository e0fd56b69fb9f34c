-- ===== src/Utils/Decimal.antt =====
-- `strtol_deci` against the value of a decimal numeral.
mod Tests
use avisor.Prelude.{
  ℕ, zero, suc, ◌+◌, ◌-◌, ◌*◌, ◌/◌, ◌%◌, ◌^◌, ◌≤◌, ◌<◌, ◌≡◌, refl, ap, ◌∙◌, sym, inl, inr, min,
  arith, Bool, true, false, Option, none, some, List, [], ◌∷◌, ◌++◌, ◌==◌, if◌then◌else◌, ltb, leb,
  Bool-cases,
}
use avisor.Utils.{
  isspace, isdigit, long_max, long_min, skip_space, take_sign, accumulate, number, strtol_deci,
}

-- The value of some decimal digits, after those that make `acc`.
abbrev pub value : ℕ → List ℕ → ℕ
value acc [] = acc
value acc (d ∷ ds) = value (acc * 10 + d) ds

-- Each is less than ten.
abbrev pub AreDigits : List ℕ → Type 0
AreDigits [] = Unit
AreDigits (d ∷ ds) = (d < 10) × AreDigits ds

-- The characters of digits, and then others.
abbrev pub numeral : List ℕ → List ℕ → List ℕ
numeral [] rest = rest
numeral (d ∷ ds) rest = (d + 0x30) ∷ numeral ds rest

-- The text after the digits does not start with one.
abbrev pub Ends : List ℕ → Type 0
Ends [] = Unit
Ends (c ∷ s) = isdigit c ≡ false

value-le : (acc : ℕ) (ds : List ℕ) → acc ≤ value acc ds
value-le acc [] = omega arith
value-le acc (d ∷ ds) = omega (arith, value-le (acc * 10 + d) ds)

abbrev pub AllSpace : List ℕ → Type 0
AllSpace [] = Unit
AllSpace (c ∷ s) = (isspace c ≡ true) × AllSpace s

abbrev pub NoSpace : List ℕ → Type 0
NoSpace [] = Unit
NoSpace (c ∷ s) = isspace c ≡ false

leb→le : (a b : ℕ) → leb a b ≡ true → a ≤ b
leb→le a b h = ground arith

-- The value if it is within the limit.
abbrev pub within : ℕ → ℕ → Option ℕ
within limit n = if leb n limit then some n else none

accumulate_lem :
    (limit : ℕ) (ds rest : List ℕ) (acc : ℕ)
    → limit ≤ 2 ^ 63
    → acc ≤ limit
    → AreDigits ds
    → Ends rest
    → accumulate limit (numeral ds rest) acc ≡ within limit (value acc ds)
unfolding accumulate
accumulate_lem limit [] [] acc b h ok ends = ground arith
accumulate_lem limit [] (c ∷ rest) acc b h ok ends = rw ends (ground arith)
accumulate_lem limit (d ∷ ds) rest acc b h (lt, ok) ends =
    elim (Bool-cases (leb (acc * 10 + d) limit)) [
      | inl fits ↦
          ground (arith, accumulate_lem limit ds rest (acc * 10 + d) b (leb→le _ _ fits) ok ends)
      | inr over ↦ ground (arith, value-le (acc * 10 + d) ds)
    ]

skip_space_lem : (space s : List ℕ) → AllSpace space → NoSpace s → skip_space (space ++ s) ≡ s
unfolding skip_space
skip_space_lem [] [] ok ends = refl
skip_space_lem [] (c ∷ s) ok ends = rw ends
skip_space_lem (c ∷ space) s (is, ok) ends = rw is (skip_space_lem space s ok ends)

pub data Sign : Type 0 where
  bare plus minus : Sign

-- A sign and the text after it.
abbrev pub signed : Sign → List ℕ → List ℕ
signed bare s = s
signed plus s = 0x2b ∷ s
signed minus s = 0x2d ∷ s

abbrev pub is_minus : Sign → Bool
is_minus bare = false
is_minus plus = false
is_minus minus = true

-- A number brought into the range of `int64_t`, as a word.
abbrev pub clamp : Sign → ℕ → ℕ
clamp bare n = min n (2 ^ 63 - 1)
clamp plus n = min n (2 ^ 63 - 1)
clamp minus n = (2 ^ 64 - min n (2 ^ 63)) % 2 ^ 64

take_sign_lem :
    (sign : Sign) (d : ℕ) (ds rest : List ℕ)
    → d < 10
    → take_sign (signed sign (numeral (d ∷ ds) rest)) ≡ (is_minus sign, numeral (d ∷ ds) rest)
unfolding take_sign
take_sign_lem bare d ds rest lt = ground arith
take_sign_lem plus d ds rest lt = refl
take_sign_lem minus d ds rest lt = refl

signed-NoSpace :
    (sign : Sign) (d : ℕ) (ds rest : List ℕ)
    → d < 10
    → NoSpace (signed sign (numeral (d ∷ ds) rest))
signed-NoSpace bare d ds rest lt = ground arith
signed-NoSpace plus d ds rest lt = refl
signed-NoSpace minus d ds rest lt = refl

number_lem :
    (sign : Sign) (d : ℕ) (ds rest : List ℕ)
    → AreDigits (d ∷ ds)
    → Ends rest
    → number (is_minus sign, numeral (d ∷ ds) rest) ≡ clamp sign (value 0 (d ∷ ds))
unfolding number
number_lem bare d ds rest ok ends =
    rw (number, accumulate_lem long_max (d ∷ ds) rest 0 (omega arith) (omega arith) ok ends)
      (ground arith)
number_lem plus d ds rest ok ends =
    rw (number, accumulate_lem long_max (d ∷ ds) rest 0 (omega arith) (omega arith) ok ends)
      (ground arith)
number_lem minus d ds rest ok ends =
    rw (number, accumulate_lem long_min (d ∷ ds) rest 0 (omega arith) (omega arith) ok ends)
      (ground arith)

-- After white space and at most one sign, `strtol_deci` reads the decimal numeral up to the first
-- character that is no digit, and returns its value, negated after a minus; a value out of the
-- range of `int64_t` is brought to the nearest end of the range.
pub strtol_deci_lem :
    (space : List ℕ) (sign : Sign) (d : ℕ) (ds rest : List ℕ)
    → AllSpace space
    → AreDigits (d ∷ ds)
    → Ends rest
    → strtol_deci (space ++ signed sign (numeral (d ∷ ds) rest)) ≡ clamp sign (value 0 (d ∷ ds))
unfolding strtol_deci
strtol_deci_lem space sign d ds rest ok (lt, digits) ends =
    let text = signed sign (numeral (d ∷ ds) rest) in
    ap (λ t. number (take_sign t)) (skip_space_lem space text ok (signed-NoSpace sign d ds rest lt))
    ∙ ap number (take_sign_lem sign d ds rest lt)
    ∙ number_lem sign d ds rest (lt, digits) ends
