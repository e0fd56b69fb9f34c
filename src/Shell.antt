-- ===== src/Shell.antt =====
-- hypervisor/common/shell.c: the command line of the hypervisor. A string is the list of its
-- characters, and a buffer the list of its bytes.
mod Tests
pub mod Argv
pub mod Line
pub mod Process
use avisor.Prelude.{
  ℕ, zero, suc, ◌+◌, ◌-◌, ◌^◌, ◌%◌, Bool, true, false, not, ◌&&◌, ◌||◌, Option, none, some, List,
  [], ◌∷◌, ◌++◌, ◌==◌, if◌then◌else◌, ltb, leb, get_or, set, replicate, length,
}

-- SHELL_CMD_MAX_LEN
abbrev pub shell_cmd_max_len : ℕ
shell_cmd_max_len = 100

-- CODE_AVOID_SHELL_PROMPT_STR, and EINVAL and EFAULT as the `int32_t` of a status
abbrev pub code_avoid_shell_prompt_str : ℕ
code_avoid_shell_prompt_str = 0xFFFF

abbrev pub einval : ℕ
einval = 22

abbrev pub efault : ℕ
efault = 14

abbrev pub neg : ℕ → ℕ
neg n = 2 ^ 32 - n

-- `struct shell`, but for its commands.
pub record Shell : Type 0 where
  pub input_line : List (List ℕ)
  pub input_line_len : ℕ
  pub input_line_active : ℕ

-- What is sent to the console: a character, a string, or one of the fixed messages.
pub data Out : Type 0 where
  putc : ℕ → Out
  puts : List ℕ → Out
  invalid_command invalid_parameters launch_failed prompt not_hex no_start : Out
  entering switched : ℕ → Out

-- The bytes of a buffer from a place on, up to the zero that ends them as a string.
abbrev pub c_string : List ℕ → List ℕ
c_string [] = []
c_string (c ∷ s) = if c == 0 then [] else c ∷ c_string s

abbrev pub drop : ℕ → List ℕ → List ℕ
drop zero s = s
drop (suc n) [] = []
drop (suc n) (c ∷ s) = drop n s

-- SHELL_INPUT_LINE_OTHER
abbrev pub shell_input_line_other : ℕ → ℕ
shell_input_line_other v = (v + 1) % 2

abbrev pub active_line : Shell → List ℕ
active_line sh = get_or sh.input_line sh.input_line_active []

abbrev pub with_line : Shell → List ℕ → Shell
with_line sh l = record sh { input_line = set sh.input_line sh.input_line_active l }

-- The result of `shell_input_line`, with the shell, the characters that have not been read and
-- what was sent.
pub record Typed : Type 0 where
  pub done : Bool
  pub shell : Shell
  pub rest : List ℕ
  pub out : List Out

-- `shell_handle_special_char`; none while a character is waited for.
pub shell_handle_special_char : ℕ → List ℕ → Option (List ℕ)
shell_handle_special_char ch [] = if ch == 0x1b then none else some []
shell_handle_special_char ch (a ∷ []) = if ch == 0x1b then none else some (a ∷ [])
shell_handle_special_char ch (a ∷ b ∷ rest) = if ch == 0x1b then some rest else some (a ∷ b ∷ rest)

-- The two ends of a line.
end_line : Shell → List ℕ → Option Typed
end_line sh rest = some (record {
  done = true;
  shell = record sh { input_line_len = 0 };
  rest = rest;
  out = puts (13 ∷ 10 ∷ []) ∷ [];
})

-- case '\b' and 127
erase : Shell → List ℕ → Option Typed
erase sh rest =
    let len = sh.input_line_len - 1 in
    if ltb 0 sh.input_line_len
    then some (record {
      done = false;
      shell = with_line (record sh { input_line_len = len }) (set (active_line sh) len 0);
      rest = rest;
      out = putc 8 ∷ puts (32 ∷ 8 ∷ []) ∷ [];
    })
    else some (record { done = false; shell = sh; rest = rest; out = [] })

-- default
add_char : Shell → ℕ → List ℕ → Option Typed
unfolding end_line shell_handle_special_char
add_char sh ch rest =
    let line = set (active_line sh) sh.input_line_len ch in
    if ltb sh.input_line_len shell_cmd_max_len
    then if leb 32 ch && leb ch 126
      then some (record {
        done = false;
        shell = with_line (record sh { input_line_len = sh.input_line_len + 1 }) line;
        rest = rest;
        out = puts (c_string (drop sh.input_line_len line)) ∷ [];
      })
      else elim (shell_handle_special_char ch rest) [
        | none ↦ none
        | some rest' ↦ some (record { done = false; shell = sh; rest = rest'; out = [] })
      ]
    else end_line sh rest

-- The characters that arrive are the second argument; none while one is waited for.
pub shell_input_line : Shell → List ℕ → Option Typed
unfolding erase end_line add_char
shell_input_line sh [] = none
shell_input_line sh (ch ∷ rest) =
    if (ch == 8) || (ch == 127)
    then erase sh rest
    else if ch == 13
    then end_line sh rest
    else if ch == 10
    then some (record { done = false; shell = sh; rest = rest; out = [] })
    else add_char sh ch rest
