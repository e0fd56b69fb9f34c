-- ===== src/Shell/Process.antt =====
-- hypervisor/common/shell.c: from a line to the command that it names, and the loop's one round.
pub mod Kick
pub mod Run
use avisor.Prelude.{
  ℕ, zero, suc, ◌+◌, ◌-◌, ◌^◌, ◌%◌, Bool, true, false, not, ◌&&◌, ◌||◌, Option, none, some, List,
  [], ◌∷◌, ◌++◌, ◌==◌, if◌then◌else◌, ltb, leb, get_or, set, replicate, length,
}
use avisor.Utils.Str.{strncpy, strcmp}
use avisor.Shell.{
  Shell, Out, invalid_command, invalid_parameters, launch_failed, prompt, shell_cmd_max_len,
  code_avoid_shell_prompt_str, einval, neg, c_string, shell_input_line_other, active_line,
  with_line, Typed, shell_input_line,
}
use avisor.Shell.Argv.{string_to_argv}

-- `struct shell_cmd`, without its texts of help. `fcn` takes `argv`, and what the commands change
-- is W; none when it does not end.
pub record ShellCmd (W : Type 0) : Type 0 where
  pub str : List ℕ
  pub fcn : List (List ℕ) → W → Option (ℕ × W × List Out)

-- `memset` of a line
abbrev pub blank : List ℕ
blank = replicate (shell_cmd_max_len + 1) 0

-- What `shell_process_cmd` says of a status.
abbrev pub report : ℕ → List Out
report status =
    if status == neg einval
    then invalid_parameters ∷ []
    else if status == code_avoid_shell_prompt_str
    then []
    else if not (status == 0)
    then launch_failed ∷ []
    else []

-- `cmd_argv_str`: all of its bytes are written.
abbrev pub cmd_argv_str : List ℕ → List ℕ
cmd_argv_str line = set (strncpy blank (c_string line) shell_cmd_max_len) shell_cmd_max_len 0

-- The line that is processed, and the shell that is left: '.' stands for the other line.
abbrev pub choose_line : Shell → List ℕ × Shell
choose_line sh =
    let other = shell_input_line_other sh.input_line_active in
    if get_or (active_line sh) 0 0 == 46
    then (get_or sh.input_line other [], sh)
    else (active_line sh, record sh { input_line_active = other })

module _ {W : Type 0} where
  pub shell_find_cmd : List (ShellCmd W) → List ℕ → Option (ShellCmd W)
  shell_find_cmd [] cmd_str = none
  shell_find_cmd (p ∷ cmds) cmd_str =
      let rest = shell_find_cmd cmds cmd_str in if strcmp p.str cmd_str == 0 then some p else rest

  -- What a command returns, with what `shell_process_cmd` says of it.
  abbrev pub reported : Option (ℕ × W × List Out) → Option (ℕ × W × List Out)
  reported none = none
  reported (some (status, w, out)) = some (status, w, out ++ report status)

  -- The command that has been found, if any, on its arguments.
  abbrev pub run_found : W → List (List ℕ) → Option (ShellCmd W) → Option (ℕ × W × List Out)
  run_found w cmd_argv none = some (neg einval, w, invalid_command ∷ [])
  run_found w cmd_argv (some p) = reported (p.fcn cmd_argv w)

  -- The command of an `argv`.
  pub run_argv : List (ShellCmd W) → List (List ℕ) → W → Option (ℕ × W × List Out)
  unfolding shell_find_cmd
  run_argv cmds [] w = some (neg einval, w, [])
  run_argv cmds (name ∷ args) w = run_found w (name ∷ args) (shell_find_cmd cmds name)

  pub shell_process_cmd : List (ShellCmd W) → List ℕ → W → Option (ℕ × W × List Out)
  unfolding run_argv
  shell_process_cmd cmds p_input_line w =
      elim (string_to_argv (c_string (cmd_argv_str p_input_line))) [
        | none ↦ none
        | some cmd_argv ↦ run_argv cmds cmd_argv w
      ]

  -- The shell that is left when the line has been processed.
  pub left : Shell → Option (ℕ × W × List Out) → Option (ℕ × Shell × W × List Out)
  left sh none = none
  left sh (some (status, w, out)) = some (status, with_line sh blank, w, out)

  pub shell_process : List (ShellCmd W) → Shell → W → Option (ℕ × Shell × W × List Out)
  unfolding shell_process_cmd left
  shell_process cmds sh w =
      let (line, sh') = choose_line sh in left sh' (shell_process_cmd cmds line w)

  -- The prompt after a command.
  pub with_prompt :
      Typed → Option (ℕ × Shell × W × List Out) → Option (Shell × List ℕ × W × List Out)
  with_prompt typed none = none
  with_prompt typed (some (status, sh, w, out)) = some (
    sh,
    typed.rest,
    w,
    typed.out ++ out ++ (if status == code_avoid_shell_prompt_str then [] else prompt ∷ []),
  )

  -- What follows the input.
  pub after_input : List (ShellCmd W) → W → Option Typed → Option (Shell × List ℕ × W × List Out)
  unfolding shell_process with_prompt
  after_input cmds w none = none
  after_input cmds w (some typed) =
      let ended = shell_process cmds typed.shell w in
      if typed.done then with_prompt typed ended else some (typed.shell, typed.rest, w, typed.out)

  -- One round of the shell on the characters that arrive, with those that are left; none while it
  -- waits for a character.
  pub shell_kick : List (ShellCmd W) → Shell → List ℕ → W → Option (Shell × List ℕ × W × List Out)
  unfolding after_input
  shell_kick cmds sh chars w = after_input cmds w (shell_input_line sh chars)

pub shell_init : Shell → Shell
shell_init sh = with_line sh blank
