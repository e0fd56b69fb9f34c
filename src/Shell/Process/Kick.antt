-- ===== src/Shell/Process/Kick.antt =====
-- One round of the shell keeps its lines well formed.
use mathlib.Core.Path.{subst}
use avisor.Prelude.{
  ℕ, ◌+◌, ◌%◌, ◌≡◌, refl, sym, ◌∙◌, Bool, true, false, Option, none, some, List, [], ◌==◌,
  if◌then◌else◌, get_or, arith, get_or-replicate,
}
use avisor.Shell.{Shell, Out, Typed, active_line, with_line, shell_input_line}
use avisor.Shell.Line.{IsSound, IsValid, Ready, Kept, new_line, shell_input_line-Kept}
use avisor.Shell.Process.{
  ShellCmd, blank, choose_line, shell_process_cmd, left, shell_process, with_prompt, after_input,
  shell_kick,
}

-- The choice of a line.
choose_line-IsSound :
    (sh : Shell)
    → IsSound sh
    → IsSound (choose_line sh).1 × ((choose_line sh).1.input_line_len ≡ sh.input_line_len)
choose_line-IsSound sh v = go (get_or (active_line sh) 0 0 == 46)
  where
    other : Shell
    other = record sh { input_line_active = (sh.input_line_active + 1) % 2 }

    flipped : IsSound other
    flipped = record { lines = v.lines; active_in = omega arith; buffers = v.buffers }

    go :
        (b : Bool)
        → let out : List ℕ × Shell =
            (if b
              then (get_or sh.input_line ((sh.input_line_active + 1) % 2) [], sh)
              else (active_line sh, other)) in
          IsSound out.1 × (out.1.input_line_len ≡ sh.input_line_len)
    go true = (v, refl)
    go false = (flipped, refl)

blanked : (sh : Shell) → IsSound sh → sh.input_line_len ≡ 0 → IsValid (with_line sh blank)
blanked sh v e =
    subst (λ n. IsValid (with_line (record sh { input_line_len = n }) blank)) (sym e)
      (new_line sh 0 blank v refl (omega arith)
        (λ i h. absurd (omega arith), λ i h. get_or-replicate 101 0 i))

module _ {W : Type 0} where
  -- A round that ends leaves a shell that is well formed.
  abbrev pub Left : Option (Shell × List ℕ × W × List Out) → Type 0
  Left none = Unit
  Left (some (sh, rest, w, out)) = IsValid sh

  abbrev LeftValid : Option (ℕ × Shell × W × List Out) → Type 0
  LeftValid none = Unit
  LeftValid (some (status, sh, w, out)) = IsValid sh

  left-LeftValid :
      (sh : Shell) (o : Option (ℕ × W × List Out))
      → IsSound sh
      → sh.input_line_len ≡ 0
      → LeftValid (left sh o)
  unfolding left
  left-LeftValid sh none v e = tt
  left-LeftValid sh (some (status, w, out)) v e = blanked sh v e

  with_prompt-Left :
      (typed : Typed) (o : Option (ℕ × Shell × W × List Out))
      → LeftValid o
      → Left (with_prompt typed o)
  unfolding with_prompt
  with_prompt-Left typed none v = tt
  with_prompt-Left typed (some (status, sh, w, out)) v = v

  shell_process-LeftValid :
      (cmds : List (ShellCmd W)) (sh : Shell) (w : W)
      → IsSound sh
      → sh.input_line_len ≡ 0
      → LeftValid (shell_process cmds sh w)
  unfolding shell_process
  shell_process-LeftValid cmds sh w v e =
      let (sound, len) = choose_line-IsSound sh v in
      left-LeftValid (choose_line sh).1 (shell_process_cmd cmds (choose_line sh).0 w) sound
        (len ∙ e)

  ready :
      (cmds : List (ShellCmd W)) (w : W) (done : Bool) (typed : Typed)
      → Ready done typed.shell
      → Left (
          if done
          then with_prompt typed (shell_process cmds typed.shell w)
          else some (typed.shell, typed.rest, w, typed.out))
  ready cmds w true typed (v, e) =
      with_prompt-Left typed (shell_process cmds typed.shell w)
        (shell_process-LeftValid cmds typed.shell w v e)
  ready cmds w false typed v = v

  after_input-Left :
      (cmds : List (ShellCmd W)) (w : W) (o : Option Typed) → Kept o → Left (after_input cmds w o)
  unfolding after_input
  after_input-Left cmds w none h = tt
  after_input-Left cmds w (some typed) h = ready cmds w typed.done typed h.after

  -- Whatever is typed, and whatever the commands do, a round of the shell that ends leaves it well
  -- formed: two lines of their size that end as strings, the active one with the characters typed
  -- so far, all printable, and zeros behind them.
  pub shell_kick-Left :
      (cmds : List (ShellCmd W)) (sh : Shell) (chars : List ℕ) (w : W)
      → IsValid sh
      → Left (shell_kick cmds sh chars w)
  unfolding shell_kick
  shell_kick-Left cmds sh chars w v =
      after_input-Left cmds w (shell_input_line sh chars) (shell_input_line-Kept sh chars v)
