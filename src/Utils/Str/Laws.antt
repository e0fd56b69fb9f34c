-- ===== src/Utils/Str/Laws.antt =====
-- What the functions on strings find.
use avisor.Prelude.{
  ℕ, ◌<◌, ◌≡◌, ◌↔◌, ◌⊎◌, refl, sym, ap, ◌∙◌, Bool, true, false, List, [], ◌∷◌, ◌==◌, if◌then◌else◌,
  arith, Bool-cases, inl, inr, ==_iff,
}
use mathlib.Core.Path.{ap₂}
use avisor.Utils.Str.{difference, strcmp}

-- The characters of a string are bytes other than zero.
abbrev pub IsString : List ℕ → Type 0
IsString [] = Unit
IsString (c ∷ s) = (0 < c) × (c < 256) × IsString s

difference-zero : (a b : ℕ) → a < 256 → b < 256 → difference a b ≡ 0 → a ≡ b
difference-zero a b h k e = omega arith

difference-same : (a : ℕ) → difference a a ≡ 0
difference-same a = omega arith

strcmp-same : (s : List ℕ) → strcmp s s ≡ 0
unfolding strcmp
strcmp-same [] = refl
strcmp-same (c ∷ s) = elim (Bool-cases (c == c)) [
  | inl e ↦ rw e (strcmp-same s)
  | inr e ↦ rw e (difference-same c)
]

clash : (b : Bool) → b ≡ true → ¬ (b ≡ false)
clash b e h = grind arith

decided :
    (b : Bool) (x y : ℕ)
    → (if b then x else y) ≡ 0
    → ((b ≡ true) × (x ≡ 0)) ⊎ ((b ≡ false) × (y ≡ 0))
decided true x y e = inl (refl, e)
decided false x y e = inr (refl, e)

strcmp-zero : (s t : List ℕ) → IsString s → IsString t → strcmp s t ≡ 0 → s ≡ t
unfolding strcmp
strcmp-zero [] [] h k e = refl
strcmp-zero [] (d ∷ t) h (pos, byte, k) e = absurd (omega arith)
strcmp-zero (c ∷ s) [] (pos, byte, h) k e = absurd (omega arith)
strcmp-zero (c ∷ s) (d ∷ t) (pos, byte, h) (pos', byte', k) e =
    elim (decided (c == d) (strcmp s t) (difference c d) e) [
      | inl (same, rest) ↦ ap₂ (λ x y. x ∷ y) ((==_iff c d).0 same) (strcmp-zero s t h k rest)
      | inr (other, nil) ↦
          absurd (clash _ ((==_iff c d).1 (difference-zero c d byte byte' nil)) other)
    ]

-- `strcmp` is 0 on equal strings, and on no others.
pub strcmp_iff : (s t : List ℕ) → IsString s → IsString t → (strcmp s t ≡ 0) ↔ (s ≡ t)
strcmp_iff s t h k = (strcmp-zero s t h k, λ e. ap (strcmp s) (sym e) ∙ strcmp-same s)
