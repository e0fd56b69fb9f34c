-- ===== src/Uart.antt =====
-- hypervisor/boards/raspi/mini_uart.c: what a character from the keyboard does. Printing is a list
-- of what is printed.
pub mod Keys
pub mod Consoles
mod Tests
use avisor.Prelude.{
  ℕ, zero, suc, ◌+◌, ◌-◌, ◌%◌, ◌^◌, Bool, true, false, not, ◌&&◌, ◌||◌, Option, none, some, List,
  [], ◌∷◌, ◌++◌, ◌==◌, if◌then◌else◌, ltb, leb, get_or, set, length,
}
use avisor.Utils.{isdigit}
use avisor.Loader.{LoaderArgs}
use avisor.Pages.{Machine}
use avisor.Task.{Task}
use avisor.Fifo.{enqueue_fifo}
use avisor.Sched.{System, task_at, is_running}
use avisor.Console.{flush_task_console}
use avisor.Bcm2837.Aux.{with_in}
use avisor.Shell.{Shell, Out, puts, entering, switched}
use avisor.Shell.Process.{ShellCmd, shell_kick}

-- The tasks, memory, `uart_forwarded_task`, the static `is_escaped` of handle_uart_irq, and
-- `bl_args` of the shell.
pub record Host : Type 0 where
  pub sys : System
  pub machine : Machine
  pub uart_forwarded_task : ℕ
  pub is_escaped : Bool
  pub bl_args : LoaderArgs

-- ESCAPE_CHAR, which is '@'
abbrev pub escape_char : ℕ
escape_char = 64

abbrev pub is_uart_forwarded_task : (uart_forwarded_task : ℕ) → Task → Bool
is_uart_forwarded_task uart_forwarded_task tsk = tsk.pid == uart_forwarded_task

abbrev pub with_task : Host → ℕ → Task → Host
with_task h i tsk = record h { sys = record (h.sys) { task = set h.sys.task i (some tsk) } }

-- The label `enqueue_char`, for what is at the place of the task. A place below `nr_tasks` is not
-- NULL.
pub enqueue_for : Host → ℕ → Option Task → Host
enqueue_for h received none = h
enqueue_for h received (some tsk) =
    if is_running tsk
    then with_task h h.uart_forwarded_task
        (with_in tsk (enqueue_fifo tsk.console.in_fifo received).1)
    else h

pub enqueue_char : Host → ℕ → Host
unfolding enqueue_for
enqueue_char h received = enqueue_for h received (task_at h.sys.task h.uart_forwarded_task)

-- A task whose console has been flushed, at its place, and what was printed.
pub flushed_at : Host → ℕ → Option (List ℕ × Task) → Option (Host × List Out)
flushed_at h i none = none
flushed_at h i (some (chars, tsk)) = some (with_task h i tsk, puts chars ∷ [])

-- `if (tsk->state == TASK_RUNNING) flush_task_console(tsk)`; none when it does not end.
pub flush_running : Host → ℕ → Option Task → Option (Host × List Out)
unfolding flushed_at
flush_running h i none = some (h, [])
flush_running h i (some tsk) =
    let flushed = flushed_at h i (flush_task_console tsk) in
    if is_running tsk then flushed else some (h, [])

-- What is printed before the rest.
pub announced : Out → Option (Host × List Out) → Option (Host × List Out)
announced o none = none
announced o (some (h, out)) = some (h, o ∷ out)

-- '@' and a digit. `switched` is the message "Switched to console".
pub switch_console : Host → ℕ → Option (Host × List Out)
unfolding flush_running announced
switch_console h tsk_id =
    let to : Host = record h { uart_forwarded_task = tsk_id } in
    let flushed =
      announced (switched tsk_id) (flush_running to tsk_id (task_at h.sys.task tsk_id)) in
    if leb h.sys.nr_tasks tsk_id then some (h, []) else flushed

-- A character for a VM. '@' and 'l' print the list of tasks, which is left out.
unfoldable pub handle_char : Host → ℕ → Option (Host × List Out)
unfolding enqueue_char switch_console
handle_char h received =
    let plain : Host = record h { is_escaped = false } in
    if h.is_escaped
    then if isdigit received
      then switch_console plain (received - 0x30)
      else if received == 0x6c
      then some (plain, [])
      else if received == escape_char
      then some (enqueue_char plain received, [])
      else some (plain, [])
    else if received == escape_char
    then some (record h { is_escaped = true }, [])
    else some (enqueue_char h received, [])

-- The result for a VM, which does not touch the shell.
pub vm_char : Shell → List ℕ → Option (Host × List Out) → Option (Shell × List ℕ × Host × List Out)
vm_char sh chars none = none
vm_char sh chars (some (h, out)) = some (sh, chars, h, out)

-- The characters that wait are the third argument; none while one is waited for.
pub handle_uart_irq :
    List (ShellCmd Host) → Shell → List ℕ → Host → Option (Shell × List ℕ × Host × List Out)
unfolding vm_char
handle_uart_irq cmds sh [] h = if h.uart_forwarded_task == 0 then shell_kick cmds sh [] h else none
handle_uart_irq cmds sh (c ∷ chars) h =
    if h.uart_forwarded_task == 0
    then shell_kick cmds sh (c ∷ chars) h
    else vm_char sh chars (handle_char h (c % 2 ^ 8))
