-- ===== src/Shell/Argv.antt =====
-- hypervisor/common/shell.c: `string_to_argv`.
pub mod Words
use avisor.Prelude.{
  ℕ, zero, suc, ◌+◌, Bool, true, false, not, ◌&&◌, ◌||◌, Option, none, some, List, [], ◌∷◌, ◌++◌,
  ◌==◌, if◌then◌else◌, length,
}

-- The loops over spaces.
pub skip_spaces : List ℕ → List ℕ
skip_spaces [] = []
skip_spaces (c ∷ s) = if c == 32 then skip_spaces s else c ∷ s

abbrev pub is_separator : ℕ → Bool
is_separator c = (c == 32) || (c == 44)

-- The loop over an argument: its characters, and the text from the character that ends it on.
pub take_argument : List ℕ → List ℕ × List ℕ
take_argument [] = ([], [])
take_argument (c ∷ s) =
    let (arg, rest) = take_argument s in if is_separator c then ([], c ∷ s) else (c ∷ arg, rest)

-- What follows the separator that ends an argument.
next_argument : List ℕ → List ℕ
unfolding skip_spaces
next_argument [] = []
next_argument (c ∷ s) = skip_spaces s

-- The outer loop; none when it has not ended after that many rounds.
pub arguments : (rounds : ℕ) → List ℕ → Option (List (List ℕ))
unfolding take_argument next_argument
arguments rounds [] = some []
arguments zero (c ∷ s) = none
arguments (suc rounds) (c ∷ s) =
    let (arg, rest) = take_argument (c ∷ s) in
    let others = arguments rounds (next_argument rest) in
    elim others [ none ↦ none | some args ↦ some (arg ∷ args) ]

-- `argv`, of which `argc` is the length. The caller's string is not NULL.
pub string_to_argv : List ℕ → Option (List (List ℕ))
unfolding arguments skip_spaces
string_to_argv argv_str = arguments (length argv_str) (skip_spaces argv_str)
