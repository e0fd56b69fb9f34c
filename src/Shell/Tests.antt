-- ===== src/Shell/Tests.antt =====
-- A shell with two commands, and the theorems at it.
use avisor.Prelude.{
  ℕ, zero, suc, ◌+◌, ◌<◌, ◌≤◌, get_or-replicate, ◌≡◌, refl, ap, arith, some, List, [], ◌∷◌, get_or,
  length, replicate,
}
use avisor.Shell.{Shell, invalid_command, einval, neg, active_line}
use avisor.Shell.Argv.{string_to_argv}
use avisor.Shell.Argv.Words.{Item, string_to_argv-text}
use avisor.Shell.Line.{IsLine, IsValid}
use avisor.Shell.Process.{ShellCmd, blank, shell_process_cmd, shell_kick}
use avisor.Shell.Process.Kick.{Left, shell_kick-Left}
use avisor.Shell.Process.Run.{shell_process_cmd-runs, shell_process_cmd-unknown}

-- `ab` adds the number of its arguments to what the commands change.
abbrev count : ShellCmd ℕ
count = record { str = 97 ∷ 98 ∷ []; fcn = λ argv w. some (0, w + length argv, []) }

abbrev fail : ShellCmd ℕ
fail = record { str = 97 ∷ []; fcn = λ argv w. some (1, w, []) }

abbrev line : List ℕ
line = 97 ∷ 98 ∷ 44 ∷ 32 ∷ 99 ∷ replicate 96 0

abbrev ab : Item
ab = record { first = 97; others = 98 ∷ []; separator = 44; spaces = 1 }

abbrev c : Item
c = record { first = 99; others = []; separator = 32; spaces = 0 }

string_to_argv-text_example :
    string_to_argv (32 ∷ 97 ∷ 98 ∷ 44 ∷ 32 ∷ 99 ∷ []) ≡ some ((97 ∷ 98 ∷ []) ∷ (99 ∷ []) ∷ [])
string_to_argv-text_example =
    string_to_argv-text 1 ab (c ∷ []) ((refl, (refl, tt)), refl) (((refl, tt), refl), tt)

shell_process_cmd-runs_example : shell_process_cmd (fail ∷ count ∷ []) line 5 ≡ some (0, 7, [])
shell_process_cmd-runs_example =
    shell_process_cmd-runs (fail ∷ []) [] count 5 line 0 ab (c ∷ []) refl refl
      ((refl, (refl, tt)), refl) (((refl, tt), refl), tt) refl
      (omega arith, omega arith, (omega arith, omega arith, tt))
      ((omega arith, omega arith, tt), (λ e. omega (arith, ap length e)), tt) refl

shell_process_cmd-unknown_example :
    shell_process_cmd (fail ∷ []) line 5 ≡ some (neg einval, 5, invalid_command ∷ [])
shell_process_cmd-unknown_example =
    shell_process_cmd-unknown (fail ∷ []) 5 line 0 ab (c ∷ []) refl refl ((refl, (refl, tt)), refl)
      (((refl, tt), refl), tt) refl (omega arith, omega arith, (omega arith, omega arith, tt))
      ((omega arith, omega arith, tt), (λ e. omega (arith, ap length e)), tt)

abbrev shell : Shell
shell = record {
  input_line = (97 ∷ replicate 100 0) ∷ blank ∷ [];
  input_line_len = 1;
  input_line_active = 0;
}

lines : (i : ℕ) → i < 2 → IsLine (get_or shell.input_line i [])
lines zero h = (refl, refl)
lines (suc zero) h = (refl, refl)
lines (suc (suc i)) h = absurd (omega arith)

one_typed :
    (i : ℕ) → i < 1 → (32 ≤ get_or (active_line shell) i 0) × (get_or (active_line shell) i 0 ≤ 126)
one_typed zero h = (omega arith, omega arith)
one_typed (suc i) h = absurd (omega arith)

zeros : (i : ℕ) → 1 ≤ i → get_or (active_line shell) i 0 ≡ 0
zeros zero h = absurd (omega arith)
zeros (suc i) h = get_or-replicate 100 0 i

shell-IsValid : IsValid shell
shell-IsValid = record {
  sound = record { lines = refl; active_in = omega arith; buffers = lines };
  len_in = omega arith;
  typed = one_typed;
  behind = zeros;
}

shell_kick-Left_example : Left (shell_kick (fail ∷ count ∷ []) shell (98 ∷ 13 ∷ []) 5)
shell_kick-Left_example = shell_kick-Left (fail ∷ count ∷ []) shell (98 ∷ 13 ∷ []) 5 shell-IsValid
