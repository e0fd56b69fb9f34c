-- ===== src/Lrtos.antt =====
-- guests/lrtos/src/sched.c, fork.c: the scheduler of the guest lrtos, in steps between which the
-- timer can interrupt. `current` is a place of `task`; its phase says how far it is in the kernel.
-- A task that is not current waits in cpu_switch_to, or starts at ret_from_fork: both go on with
-- preempt_enable.
pub mod Counter
pub mod Rounds
pub mod Preempt
pub mod Steps
pub mod Switching
pub mod Run
pub mod Ticks
mod Tests
use avisor.Prelude.{
  ℕ, zero, suc, ◌+◌, ◌-◌, Bool, true, false, not, ◌&&◌, ◌||◌, Option, none, some, List, [], ◌∷◌,
  ◌==◌, if◌then◌else◌, ltb, get_or, set,
}
use avisor.Prelude.Int.{ℤ, pos, negsuc, gtb, to_int}
use Counter.{decrement, recharged}

-- TASK_RUNNING and TASK_ZOMBIE
pub data TaskState : Type 0 where
  task_running task_zombie : TaskState

-- The fields of struct task_struct that the scheduler reads.
pub record GuestTask : Type 0 where
  pub state : TaskState
  pub counter : ℤ
  pub priority : ℕ
  pub preempt_count : ℕ

-- User code or the code of the kernel outside of what follows; copy_process after preempt_disable;
-- exit_process after preempt_disable, and after preempt_enable; _schedule after preempt_disable,
-- and after switch_to.
pub data Phase : Type 0 where
  outside forking exiting leaving choosing resuming : Phase

pub record Guest : Type 0 where
  pub task : List (Option GuestTask)
  pub current : ℕ
  pub nr_tasks : ℕ
  pub phase : Phase

abbrev pub place : List (Option GuestTask) → ℕ → Option GuestTask
place tasks i = get_or tasks i none

abbrev pub is_runnable : GuestTask → Bool
is_runnable t = elim t.state [ task_running ↦ true | task_zombie ↦ false ]

-- `p && p->state == TASK_RUNNING && p->counter > c`
abbrev pub improves : Option GuestTask → ℤ → Bool
improves none c = false
improves (some t) c = is_runnable t && gtb t.counter c

-- `c` after the test of a place: the `int` takes the low bits of the `long`.
pub better_of : (running : Bool) → (counter c : ℤ) → ℤ
better_of running counter c = if running && gtb counter c then to_int counter else c

abbrev pub best_at : Option GuestTask → ℤ → ℤ
best_at none c = c
best_at (some t) c = better_of (is_runnable t) t.counter c

-- The first inner loop of _schedule, from place `i` on.
pub search_tasks : List (Option GuestTask) → (i : ℕ) → (c : ℤ) → (next : ℕ) → ℤ × ℕ
search_tasks [] i c next = (c, next)
search_tasks (p ∷ ps) i c next =
    search_tasks ps (i + 1) (best_at p c) (if improves p c then i else next)

abbrev pub recharge_place : Option GuestTask → Option GuestTask
recharge_place none = none
recharge_place (some t) = some (record t { counter = recharged t.counter t.priority })

pub recharge_tasks : List (Option GuestTask) → List (Option GuestTask)
recharge_tasks [] = []
recharge_tasks (p ∷ ps) = recharge_place p ∷ recharge_tasks ps

-- `if (c) break`
abbrev pub is_nonzero : ℤ → Bool
is_nonzero (pos n) = not (n == 0)
is_nonzero (negsuc n) = true

-- The outer loop, for at most `rounds` rounds: the place chosen, and the tasks.
pub choose_next : ℕ → List (Option GuestTask) → Option (ℕ × List (Option GuestTask))
choose_next zero tasks = none
choose_next (suc rounds) tasks =
    let (c, next) = search_tasks tasks 0 (negsuc 0) 0 in
    let again = choose_next rounds (recharge_tasks tasks) in
    if is_nonzero c then some (next, tasks) else again

abbrev pub change : Guest → (GuestTask → GuestTask) → Option GuestTask → Guest
change g f none = g
change g f (some t) = record g { task = set g.task g.current (some (f t)) }

abbrev pub change_current : Guest → (GuestTask → GuestTask) → Guest
change_current g f = change g f (place g.task g.current)

abbrev pub preempt_disable : Guest → Guest
preempt_disable g = change_current g (λ t. record t { preempt_count = t.preempt_count + 1 })

abbrev pub preempt_enable : Guest → Guest
preempt_enable g = change_current g (λ t. record t { preempt_count = t.preempt_count - 1 })

-- _schedule up to its loop.
abbrev pub begin_schedule : Guest → Guest
begin_schedule g = record (preempt_disable g) { phase = choosing }

pub call_schedule : Guest → Guest
call_schedule g = begin_schedule (change_current g (λ t. record t { counter = pos 0 }))

abbrev pub keeps_running : GuestTask → Bool
keeps_running t = gtb t.counter (pos 0) || ltb 0 t.preempt_count

-- timer_tick, for the current task after `--current->counter`.
pub tick_task : Guest → Option GuestTask → Guest
tick_task g none = g
tick_task g (some t) = if keeps_running t then g else call_schedule g

pub handle_timer_tick : Guest → Guest
handle_timer_tick g =
    let g' = change_current g (λ t. record t { counter = decrement t.counter }) in
    tick_task g' (place g'.task g'.current)

-- copy_process up to the page of the new task, `allocated`.
pub begin_fork : (allocated : Bool) → Guest → Guest
begin_fork allocated g =
    if allocated then record (preempt_disable g) { phase = forking } else preempt_disable g

abbrev pub guest_tasks : ℕ
guest_tasks = 64

pub new_task_of : GuestTask → GuestTask
new_task_of t = record {
  state = task_running;
  counter = pos t.priority;
  priority = t.priority;
  preempt_count = 1;
}

-- The rest of copy_process, which stores the task at place `nr_tasks` without a test: `none` is a
-- place behind the array.
pub store_task : Guest → Option GuestTask → Option Guest
store_task g none = none
store_task g (some t) =
    if ltb g.nr_tasks guest_tasks
    then some (record g {
      task = set g.task g.nr_tasks (some (new_task_of t));
      nr_tasks = g.nr_tasks + 1;
    })
    else none

abbrev pub leave_fork : Option Guest → Option Guest
leave_fork none = none
leave_fork (some g) = some (record (preempt_enable g) { phase = outside })

pub end_fork : Guest → Option Guest
end_fork g = leave_fork (store_task g (place g.task g.current))

pub begin_exit : Guest → Guest
begin_exit g = record (preempt_disable g) { phase = exiting }

pub end_exit : Guest → Guest
end_exit g = record (preempt_enable (change_current g (λ t. record t { state = task_zombie }))) {
  phase = leaving;
}

-- switch_to, and what the next task does first.
pub switch_task : Guest → Option (ℕ × List (Option GuestTask)) → Option Guest
switch_task g none = none
switch_task g (some (next, tasks)) =
    some (record g { task = tasks; current = next; phase = resuming })

abbrev pub rounds_enough : ℕ
rounds_enough = 2

-- What the current task does next; `none` is a loop that has not ended, or a fault.
pub advance : Guest → Phase → Option Guest
advance g outside = some g
advance g forking = end_fork g
advance g exiting = some (end_exit g)
advance g leaving = some (call_schedule g)
advance g choosing = switch_task g (choose_next rounds_enough g.task)
advance g resuming = some (record (preempt_enable g) { phase = outside })

-- The timer, a step of the kernel, and the calls that a task makes.
pub data GuestEvent : Type 0 where
  ticks moves yields exits : GuestEvent
  forks : (allocated : Bool) → GuestEvent

abbrev pub is_outside : Phase → Bool
is_outside outside = true
is_outside _ = false

-- A task makes a call only outside of the kernel. Task 0 is kernel_main, which does not exit.
pub guest_step : Guest → GuestEvent → Option Guest
guest_step g ticks = some (handle_timer_tick g)
guest_step g moves = advance g g.phase
guest_step g yields = some (if is_outside g.phase then call_schedule g else g)
guest_step g exits = some (if is_outside g.phase && not (g.current == 0) then begin_exit g else g)
guest_step g (forks allocated) = some (if is_outside g.phase then begin_fork allocated g else g)

pub go_on : Option Guest → (Guest → Option Guest) → Option Guest
go_on none k = none
go_on (some g) k = k g

pub guest_run : Guest → List GuestEvent → Option Guest
guest_run g [] = some g
guest_run g (e ∷ es) = go_on (guest_step g e) (λ g'. guest_run g' es)
