-- ===== src/Command.antt =====
-- hypervisor/common/shell.c: `shell_cmd_vmc`, the command that gives the keyboard to a VM, and
-- `shell_cmd_vmld`, which starts one. The text of `entering` is formatted by the library.
pub mod Laws
mod Tests
use avisor.Prelude.{
  ℕ, ◌%◌, ◌^◌, Option, none, some, List, [], ◌∷◌, ◌==◌, if◌then◌else◌, leb, get_or, length, not,
}
use avisor.Utils.{strtol_deci}
use avisor.Utils.Str.{strncpy}
use avisor.Utils.Strtoul.{strtoul}
use avisor.Pages.{Machine}
use avisor.Loader.{LoaderArgs}
use avisor.Create.{create_task}
use avisor.Task.{Task, Sysreg}
use avisor.Sched.{System, task_at}
use avisor.Console.{flush_task_console}
use avisor.Shell.{
  Out, puts, entering, einval, efault, neg, not_hex, no_start, code_avoid_shell_prompt_str,
}
use avisor.Uart.{Host, with_task, flush_running}

-- The second flush, if the task runs, after what the first one printed.
pub then_again : List ℕ → Option (Host × List Out) → Option (Host × List Out)
then_again chars none = none
then_again chars (some (h, out)) = some (h, puts chars ∷ out)

pub flush_again : Host → ℕ → Option (List ℕ × Task) → Option (Host × List Out)
unfolding then_again
flush_again h i none = none
flush_again h i (some (chars, tsk)) =
    then_again chars (flush_running (with_task h i tsk) i (some tsk))

-- Both flushes. A place below `nr_tasks` is not NULL.
pub flush_twice : Host → ℕ → Option Task → Option (Host × List Out)
unfolding flush_again
flush_twice h i none = some (h, [])
flush_twice h i (some tsk) = flush_again h i (flush_task_console tsk)

pub entered : ℕ → Option (Host × List Out) → Option (ℕ × Host × List Out)
entered tsk_id none = none
entered tsk_id (some (h, out)) = some (code_avoid_shell_prompt_str, h, entering tsk_id ∷ out)

-- `tsk_id`
abbrev pub task_id : List (List ℕ) → ℕ
task_id argv = if length argv == 2 then strtol_deci (get_or argv 1 []) % 2 ^ 16 else 0

pub shell_cmd_vmc : List (List ℕ) → Host → Option (ℕ × Host × List Out)
unfolding flush_twice entered
shell_cmd_vmc argv h =
    let tsk_id = task_id argv in
    let to : Host = record h { uart_forwarded_task = tsk_id } in
    let done = entered tsk_id (flush_twice to tsk_id (task_at h.sys.task tsk_id)) in
    if tsk_id == 0
    then some (0, h, [])
    else if leb h.sys.nr_tasks tsk_id
    then some (neg einval, h, [])
    else done

-- `end` after a `strtoul` that may not have set it.
abbrev pub end_of : (unset : List ℕ) → Option (List ℕ) → List ℕ
end_of unset none = unset
end_of unset (some rest) = rest

-- `create_task (raw_binary_loader, &bl_args)` and what the command makes of its result.
pub started : Host → Option ℕ × Machine × System → Option (ℕ × Host × List Out)
started h (none, m, sys) = some (neg efault, record h { machine = m; sys = sys }, no_start ∷ [])
started h (some pid, m, sys) = some (0, record h { machine = m; sys = sys }, [])

-- The locals before the first `strtoul`, and the registers and the counter that create_task reads,
-- are arguments. `*end` is 0 at the end of a string.
pub shell_cmd_vmld :
    (unset : List ℕ)
    → (sysregs : Sysreg → ℕ) → (count : ℕ) → List (List ℕ)
    → Host
    → Option (ℕ × Host × List Out)
unfolding started
shell_cmd_vmld unset sysregs count argv h =
    let (load_addr, e₁) = strtoul (get_or argv 2 []) 16 in
    let end₁ = end_of unset e₁ in
    let (entry_addr, e₂) = strtoul (get_or argv 3 []) 16 in
    let end₂ = end_of end₁ e₂ in
    let args : LoaderArgs = record (h.bl_args) {
      filename = strncpy h.bl_args.filename (get_or argv 1 []) 36;
      load_addr = load_addr;
      entry_point = entry_addr;
    } in
    let done = started (record h { bl_args = args }) (create_task sysregs count h.machine h.sys) in
    if not (length argv == 4)
    then some (neg einval, h, [])
    else if not (length end₁ == 0)
    then some (neg einval, h, not_hex ∷ [])
    else if not (length end₂ == 0)
    then some (neg einval, h, not_hex ∷ [])
    else done
