-- ===== src/Shell/Argv/Words.antt =====
-- The arguments of a line, as `string_to_argv` finds them.
use mathlib.Core.List.{map}
use avisor.Prelude.{
  ℕ, zero, suc, ◌<◌, ◌≡◌, refl, ap, true, false, some, List, [], ◌∷◌, ◌++◌, ◌==◌, length, replicate,
  arith, length-append,
}
use avisor.Shell.Argv.{
  skip_spaces, is_separator, take_argument, next_argument, arguments, string_to_argv,
}

-- No character separates.
abbrev pub IsPlain : List ℕ → Type 0
IsPlain [] = Unit
IsPlain (c ∷ s) = (is_separator c ≡ false) × IsPlain s

-- An argument of one character at least, the separator behind it and the number of spaces that
-- follow.
pub record Item : Type 0 where
  pub first : ℕ
  pub others : List ℕ
  pub separator : ℕ
  pub spaces : ℕ

abbrev pub word : Item → List ℕ
word x = x.first ∷ x.others

-- The word has no character that separates, and the separator is one.
abbrev pub IsItem : Item → Type 0
IsItem x = IsPlain (word x) × (is_separator x.separator ≡ true)

abbrev pub AreItems : List Item → Type 0
AreItems [] = Unit
AreItems (x ∷ xs) = IsItem x × AreItems xs

-- The text of a line of items, without the separator of the last one.
abbrev pub text : Item → List Item → List ℕ
text x [] = word x
text x (y ∷ xs) = word x ++ (x.separator ∷ (replicate x.spaces 32 ++ text y xs))

skip_spaces-replicate : (n : ℕ) (s : List ℕ) → skip_spaces (replicate n 32 ++ s) ≡ skip_spaces s
unfolding skip_spaces
skip_spaces-replicate zero s = refl
skip_spaces-replicate (suc n) s = skip_spaces-replicate n s

-- The argument at the front of a text.
take_argument-end : (w : List ℕ) → IsPlain w → take_argument w ≡ (w, [])
unfolding take_argument
take_argument-end [] p = refl
take_argument-end (c ∷ w) (p, ps) = rw (p, take_argument-end w ps) refl

take_argument-append :
    (w : List ℕ) (c : ℕ) (s : List ℕ)
    → IsPlain w
    → is_separator c ≡ true
    → take_argument (w ++ (c ∷ s)) ≡ (w, c ∷ s)
unfolding take_argument
take_argument-append [] c s p sep = rw sep refl
take_argument-append (d ∷ w) c s (p, ps) sep = rw (p, take_argument-append w c s ps sep) refl

not_space : (c : ℕ) → is_separator c ≡ false → (c == 32) ≡ false
not_space c p = ground arith

-- A text starts with no space.
skip_spaces-text : (x : Item) (xs : List Item) → IsItem x → skip_spaces (text x xs) ≡ text x xs
unfolding skip_spaces
skip_spaces-text x [] h = rw (not_space x.first h.0.0) refl
skip_spaces-text x (y ∷ xs) h = rw (not_space x.first h.0.0) refl

arguments-text :
    (rounds : ℕ) (x : Item) (xs : List Item)
    → IsItem x
    → AreItems xs
    → length xs < rounds
    → arguments rounds (text x xs) ≡ some (map word (x ∷ xs))
unfolding arguments next_argument
arguments-text zero x xs h hs e = absurd (omega arith)
arguments-text (suc rounds) x [] h hs e =
    let end = take_argument-end (word x) h.0 in rw (arguments, end) (ap (λ r. some (r.0 ∷ [])) end)
arguments-text (suc rounds) x (y ∷ xs) h (hy, hs) e =
    let tail = replicate x.spaces 32 ++ text y xs in
    let front = take_argument-append (word x) x.separator tail h.0 h.1 in
    rw
      (
        arguments,
        front,
        skip_spaces-replicate x.spaces (text y xs),
        skip_spaces-text y xs hy,
        arguments-text rounds y xs hy hs (omega arith),
      )
      (ap (λ r. some (r.0 ∷ map word (y ∷ xs))) front)

length-text : (x : Item) (xs : List Item) → length xs < length (text x xs)
length-text x [] = omega arith
length-text x (y ∷ xs) =
    let tail = replicate x.spaces 32 ++ text y xs in
    omega (
      arith,
      length-append (word x) (x.separator ∷ tail),
      length-append (replicate x.spaces 32) (text y xs),
      length-text y xs,
    )

-- A line of any number of spaces and then at least one word, where words are separated by a space
-- or a comma and any number of spaces, gives these words as the arguments, in their order.
pub string_to_argv-text :
    (before : ℕ) (x : Item) (xs : List Item)
    → IsItem x
    → AreItems xs
    → string_to_argv (replicate before 32 ++ text x xs) ≡ some (map word (x ∷ xs))
unfolding string_to_argv
string_to_argv-text before x xs h hs =
    rw (skip_spaces-replicate before (text x xs), skip_spaces-text x xs h)
      (arguments-text (length (replicate before 32 ++ text x xs)) x xs h hs
        (omega (arith, length-append (replicate before 32) (text x xs), length-text x xs)))
