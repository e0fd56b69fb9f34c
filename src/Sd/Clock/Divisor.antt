-- ===== src/Sd/Clock/Divisor.antt =====
-- The divisor of sd_clk for a controller of version 2: the highest bit of the value.
use Prim.Native.Nat.{bit_and}
use avisor.Prelude.{
  ℕ, zero, suc, ◌+◌, ◌-◌, ◌*◌, ◌^◌, ◌<◌, ◌≤◌, ◌≡◌, ◌∙◌, sym, refl, ◌⊎◌, inl, inr, arith, Bool, true,
  false, ◌&&◌, ◌||◌, ◌==◌, ltb, leb, ==_iff, Bool-cases, ltb→lt,
}
use avisor.Prelude.Bits.{bit_and_field}
use avisor.Sd.Clock.{narrow, normalise, shift}

-- A step for the top `k` bits: the value is moved up where they are 0.
record IsNarrowed (k y s : ℕ) (r : ℕ × ℕ) : Type 0 where
  bounded : r.0 < 2 ^ 32
  result :
      ((y < 2 ^ (32 - k)) × (r.0 ≡ y * 2 ^ k) × (r.1 ≡ s - k))
      ⊎ ((2 ^ (32 - k) ≤ y) × (r.0 ≡ y) × (r.1 ≡ s))

above_test : (n : ℕ) → (n == 0) ≡ false → 0 < n
above_test n h = ground arith

narrowed :
    (mask k y s q : ℕ)
    → bit_and y mask ≡ q
    → y < 2 ^ 32
    → (q ≡ 0 → (y < 2 ^ (32 - k)) × (y * 2 ^ k < 2 ^ 32))
    → (0 < q → 2 ^ (32 - k) ≤ y)
    → IsNarrowed k y s (narrow mask k (y, s))
unfolding narrow
narrowed mask k y s q e h low high = elim (Bool-cases (bit_and y mask == 0)) [
  | inl b ↦
      let (under, fits) = low (sym e ∙ (==_iff _ _).0 b) in
      rw b (record { bounded = omega arith; result = inl (under, omega arith, refl) })
  | inr b ↦
      rw b
        (record { bounded = h; result = inr (high (omega (arith, e, above_test _ b)), refl, refl) })
]

step16 : (y s : ℕ) → y < 2 ^ 32 → IsNarrowed 16 y s (narrow 0xffff0000 16 (y, s))
step16 y s h =
    narrowed 0xffff0000 16 y s _ (bit_and_field 16 16 y) h (λ e. (omega arith, omega arith))
      (λ e. omega arith)

step8 : (y s : ℕ) → y < 2 ^ 32 → IsNarrowed 8 y s (narrow 0xff000000 8 (y, s))
step8 y s h =
    narrowed 0xff000000 8 y s _ (bit_and_field 24 8 y) h (λ e. (omega arith, omega arith))
      (λ e. omega arith)

step4 : (y s : ℕ) → y < 2 ^ 32 → IsNarrowed 4 y s (narrow 0xf0000000 4 (y, s))
step4 y s h =
    narrowed 0xf0000000 4 y s _ (bit_and_field 28 4 y) h (λ e. (omega arith, omega arith))
      (λ e. omega arith)

step2 : (y s : ℕ) → y < 2 ^ 32 → IsNarrowed 2 y s (narrow 0xc0000000 2 (y, s))
step2 y s h =
    narrowed 0xc0000000 2 y s _ (bit_and_field 30 2 y) h (λ e. (omega arith, omega arith))
      (λ e. omega arith)

step1 : (y s : ℕ) → y < 2 ^ 32 → IsNarrowed 1 y s (narrow 0x80000000 1 (y, s))
step1 y s h =
    narrowed 0x80000000 1 y s _ (bit_and_field 31 1 y) h (λ e. (omega arith, omega arith))
      (λ e. omega arith)

-- From 128 on, at least 8 bits are left.
chain :
    (x y₁ s₁ y₂ s₂ y₃ s₃ y₄ s₄ y₅ s₅ : ℕ)
    → 128 ≤ x
    → IsNarrowed 16 x 32 (y₁, s₁)
    → IsNarrowed 8 y₁ s₁ (y₂, s₂)
    → IsNarrowed 4 y₂ s₂ (y₃, s₃)
    → IsNarrowed 2 y₃ s₃ (y₄, s₄)
    → IsNarrowed 1 y₄ s₄ (y₅, s₅)
    → 8 ≤ s₅
chain x y₁ s₁ y₂ s₂ y₃ s₃ y₄ s₄ y₅ s₅ h a b c d e = ground arith

normalise_large : (x : ℕ) → 128 ≤ x → x < 2 ^ 32 → 8 ≤ (normalise x).1
unfolding normalise
normalise_large x h small =
    let a = step16 x 32 small in
    let (y₁, s₁) = narrow 0xffff0000 16 (x, 32) in
    let b = step8 y₁ s₁ a.bounded in
    let (y₂, s₂) = narrow 0xff000000 8 (y₁, s₁) in
    let c = step4 y₂ s₂ b.bounded in
    let (y₃, s₃) = narrow 0xf0000000 4 (y₂, s₂) in
    let d = step2 y₃ s₃ c.bounded in
    let (y₄, s₄) = narrow 0xc0000000 2 (y₃, s₃) in
    let e = step1 y₄ s₄ d.bounded in chain x y₁ s₁ y₂ s₂ y₃ s₃ y₄ s₄ _ _ h a b c d e

shift_large : (x : ℕ) → 128 ≤ x → x < 2 ^ 32 → shift x ≡ 7
unfolding shift
shift_large x h small = ground (arith, normalise_large x h small)

-- Below 128, by evaluation.
holds_below : ℕ → (ℕ → Bool) → Bool
holds_below zero p = true
holds_below (suc n) p = holds_below n p && p n

holds_below-true : (n : ℕ) (p : ℕ → Bool) (x : ℕ) → x < n → holds_below n p ≡ true → p x ≡ true
unfolding holds_below
holds_below-true zero p x lt h = absurd (omega arith)
holds_below-true (suc n) p x lt h = ground (arith, holds_below-true n p x)

is_log : ℕ → Bool
is_log x = x == 0 || leb (2 ^ shift x) x && ltb x (2 ^ (shift x + 1)) && leb (shift x) 6

log_table : holds_below 128 is_log ≡ true
unfolding holds_below is_log shift normalise narrow
log_table = refl

shift_small :
    (x : ℕ) → 0 < x → is_log x ≡ true → (2 ^ shift x ≤ x) × (x < 2 ^ (shift x + 1)) × (shift x ≤ 6)
unfolding is_log
shift_small x positive e = ground arith

-- For a value above 0, the shift is the place of its highest bit, or 7 where that is higher.
shift_lem :
    (x : ℕ)
    → 0 < x
    → x < 2 ^ 32
    → ((2 ^ shift x ≤ x) × (x < 2 ^ (shift x + 1)) × (shift x ≤ 6)) ⊎ ((shift x ≡ 7) × (128 ≤ x))
shift_lem x positive small = elim (Bool-cases (ltb x 128)) [
  | inl l ↦ inl (shift_small x positive (holds_below-true 128 is_log x (ltb→lt x 128 l) log_table))
  | inr g ↦ let large : 128 ≤ x = ground arith in inr (shift_large x large small, large)
]
