-- ===== src/Shell/Process/Run.antt =====
-- Which command a line runs, and with which arguments.
use mathlib.Core.List.{map}
use avisor.Prelude.{
  ℕ, zero, suc, ◌≤◌, ◌<◌, ◌≡◌, ◌≢◌, refl, ap, ◌∙◌, false, none, some, List, [], ◌∷◌, ◌++◌, ◌==◌,
  get_or, set, length, replicate, arith, ==_iff, ==_of_ne, Bool-cases, inl, inr,
}
use avisor.Utils.Str.{strncpy, strcmp}
use avisor.Utils.Str.Laws.{IsString, strcmp_iff}
use avisor.Shell.{invalid_command, c_string, einval, neg}
use avisor.Shell.Argv.{string_to_argv}
use avisor.Shell.Argv.Words.{Item, IsItem, AreItems, word, text, string_to_argv-text}
use avisor.Shell.Process.{
  ShellCmd, cmd_argv_str, shell_find_cmd, run_found, reported, run_argv, shell_process_cmd,
}

-- A string without zeros.
abbrev NoZero : List ℕ → Type 0
NoZero [] = Unit
NoZero (c ∷ s) = ((c == 0) ≡ false) × NoZero s

c_string-NoZero : (l : List ℕ) → NoZero (c_string l)
c_string-NoZero [] = tt
c_string-NoZero (c ∷ l) = elim (Bool-cases (c == 0)) [
  | inl e ↦ rw e tt
  | inr e ↦ rw e (e, c_string-NoZero l)
]

zeros : (m : ℕ) → c_string (replicate m 0) ≡ []
zeros zero = refl
zeros (suc m) = refl

-- A copy of at most `n` characters in a blank buffer, with the zero that follows.
copied :
    (s : List ℕ) (n m : ℕ)
    → NoZero s
    → length s ≤ n
    → n < m
    → c_string (set (strncpy (replicate m 0) s n) n 0) ≡ s
unfolding strncpy
copied s n zero h l lt = absurd (omega arith)
copied [] zero (suc m) h l lt = refl
copied (c ∷ s) zero (suc m) h l lt = absurd (omega arith)
copied [] (suc n) (suc m) h l lt = refl
copied (c ∷ s) (suc n) (suc m) (p, h) l lt =
    rw p (ap (λ k. c ∷ k) (copied s n m h (omega arith) (omega arith)))

-- A string ends before the zero at place `n`.
length-c_string : (l : List ℕ) (n : ℕ) → n < length l → get_or l n 0 ≡ 0 → length (c_string l) ≤ n
length-c_string [] n lt z = omega arith
length-c_string (c ∷ l) zero lt z = rw z (omega arith)
length-c_string (c ∷ l) (suc n) lt z = elim (Bool-cases (c == 0)) [
  | inl e ↦ rw e (omega arith)
  | inr e ↦ rw e (omega (arith, length-c_string l n (omega arith) z))
]

-- The copy that is cut into arguments is the line.
cmd_argv_str_lem :
    (line : List ℕ)
    → length line ≡ 101
    → get_or line 100 0 ≡ 0
    → c_string (cmd_argv_str line) ≡ c_string line
cmd_argv_str_lem line size z =
    copied (c_string line) 100 101 (c_string-NoZero line) (length-c_string line 100 (omega arith) z)
      (omega arith)

module _ {W : Type 0} where
  -- No command has the name.
  abbrev pub AreOthers : List (ShellCmd W) → List ℕ → Type 0
  AreOthers [] name = Unit
  AreOthers (p ∷ cmds) name = IsString p.str × (p.str ≢ name) × AreOthers cmds name

  find-none :
      (cmds : List (ShellCmd W)) (name : List ℕ)
      → IsString name
      → AreOthers cmds name
      → shell_find_cmd cmds name ≡ none
  unfolding shell_find_cmd
  find-none [] name h k = refl
  find-none (p ∷ cmds) name h (str, ne, k) =
      rw (==_of_ne (strcmp p.str name) 0 (λ e. ne ((strcmp_iff p.str name str h).0 e)))
        (find-none cmds name h k)

  find-some :
      (before after : List (ShellCmd W)) (p : ShellCmd W)
      → IsString p.str
      → AreOthers before p.str
      → shell_find_cmd (before ++ (p ∷ after)) p.str ≡ some p
  unfolding shell_find_cmd
  find-some [] after p h k =
      rw ((==_iff (strcmp p.str p.str) 0).1 ((strcmp_iff p.str p.str h h).1 refl)) refl
  find-some (q ∷ before) after p h (str, ne, k) =
      rw (==_of_ne (strcmp q.str p.str) 0 (λ e. ne ((strcmp_iff q.str p.str str h).0 e)))
        (find-some before after p h k)

  -- The arguments of a line are its words.
  arguments_lem :
      (cmds : List (ShellCmd W)) (w : W) (line : List ℕ) (spaces : ℕ) (x : Item) (xs : List Item)
      → length line ≡ 101
      → get_or line 100 0 ≡ 0
      → IsItem x
      → AreItems xs
      → c_string line ≡ replicate spaces 32 ++ text x xs
      → shell_process_cmd cmds line w ≡ run_argv cmds (map word (x ∷ xs)) w
  unfolding shell_process_cmd
  arguments_lem cmds w line spaces x xs size z h hs e =
      ap (λ o. elim o [ none ↦ none | some cmd_argv ↦ run_argv cmds cmd_argv w ])
        (ap string_to_argv (cmd_argv_str_lem line size z ∙ e)
          ∙ string_to_argv-text spaces x xs h hs)

  -- A line of words, the first of which is the name of a command that stands after other commands,
  -- runs that command on all the words; its result is the status of the line, and what it has
  -- printed is followed by what the shell says of the status.
  pub shell_process_cmd-runs :
      (before after : List (ShellCmd W)) (p : ShellCmd W) (w : W) (line : List ℕ) (spaces : ℕ)
      (x : Item) (xs : List Item)
      → length line ≡ 101
      → get_or line 100 0 ≡ 0
      → IsItem x
      → AreItems xs
      → c_string line ≡ replicate spaces 32 ++ text x xs
      → IsString p.str
      → AreOthers before p.str
      → word x ≡ p.str
      → shell_process_cmd (before ++ (p ∷ after)) line w ≡ reported (p.fcn (map word (x ∷ xs)) w)
  unfolding run_argv
  shell_process_cmd-runs before after p w line spaces x xs size z h hs e str others name =
      arguments_lem (before ++ (p ∷ after)) w line spaces x xs size z h hs e
      ∙ ap (run_found w (map word (x ∷ xs)))
          (ap (shell_find_cmd (before ++ (p ∷ after))) name ∙ find-some before after p str others)

  -- A line of words, the first of which is the name of no command, has the status -EINVAL, and
  -- changes nothing but for the message.
  pub shell_process_cmd-unknown :
      (cmds : List (ShellCmd W)) (w : W) (line : List ℕ) (spaces : ℕ) (x : Item) (xs : List Item)
      → length line ≡ 101
      → get_or line 100 0 ≡ 0
      → IsItem x
      → AreItems xs
      → c_string line ≡ replicate spaces 32 ++ text x xs
      → IsString (word x)
      → AreOthers cmds (word x)
      → shell_process_cmd cmds line w ≡ some (neg einval, w, invalid_command ∷ [])
  unfolding run_argv
  shell_process_cmd-unknown cmds w line spaces x xs size z h hs e str others =
      arguments_lem cmds w line spaces x xs size z h hs e
      ∙ ap (run_found w (map word (x ∷ xs))) (find-none cmds (word x) str others)
