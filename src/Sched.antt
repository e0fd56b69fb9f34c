-- ===== src/Sched.antt =====
-- hypervisor/common/sched.c: which task runs next.
pub mod Select
pub mod Bounds
pub mod Choice
pub mod Switch
mod Tests
use mathlib.Core.List.{map}
use avisor.Prelude.{
  ℕ, zero, suc, ◌+◌, ◌-◌, ◌/◌, ◌<◌, Bool, true, false, not, ◌&&◌, Option, none, some, List, [], ◌∷◌,
  ◌==◌, if◌then◌else◌, ltb, get_or, set,
}
use avisor.Prelude.Int.{ℤ, pos, negsuc, gtb, to_int}
use avisor.Task.{Task, State, running, zombie}

-- NR_TASKS
abbrev pub nr_tasks_max : ℕ
nr_tasks_max = 64

-- `task`, `current` (by its place in `task`) and `nr_tasks`. Empty places are NULL.
pub record System : Type 0 where
  pub task : List (Option Task)
  pub current : ℕ
  pub nr_tasks : ℕ

abbrev pub task_at : List (Option Task) → ℕ → Option Task
task_at tasks i = get_or tasks i none

abbrev pub is_running : Task → Bool
is_running t = elim t.state [ running ↦ true | zombie ↦ false ]

-- `p && p->state == TASK_RUNNING && p->counter > c`
abbrev pub is_better : Option Task → ℤ → Bool
is_better none c = false
is_better (some t) c = is_running t && gtb (pos t.counter) c

-- `c` after the test of a place: the `int` takes the low bits of the `long`.
abbrev pub best_of : Option Task → ℤ → ℤ
best_of none c = c
best_of (some t) c = if is_better (some t) c then to_int (pos t.counter) else c

-- The first inner loop, from place `i` on.
pub select : List (Option Task) → (i : ℕ) → (c : ℤ) → (next : ℕ) → ℤ × ℕ
select [] i c next = (c, next)
select (p ∷ ps) i c next = select ps (i + 1) (best_of p c) (if is_better p c then i else next)

-- The second inner loop: `p->counter = (p->counter >> 1) + p->priority`.
abbrev pub recharge_task : Option Task → Option Task
recharge_task none = none
recharge_task (some t) = some (record t { counter = t.counter / 2 + t.priority })

pub recharge : List (Option Task) → List (Option Task)
recharge [] = []
recharge (p ∷ ps) = recharge_task p ∷ recharge ps

-- `if (c) break`
abbrev pub is_final : ℤ → Bool
is_final (pos n) = not (n == 0)
is_final (negsuc n) = true

-- The outer loop, for at most `rounds` rounds: the place chosen, and the tasks.
pub choose : ℕ → List (Option Task) → Option (ℕ × List (Option Task))
choose zero tasks = none
choose (suc rounds) tasks =
    let (c, next) = select tasks 0 (negsuc 0) 0 in
    let again = choose rounds (recharge tasks) in if is_final c then some (next, tasks) else again

-- The rounds of the outer loop that the model follows.
abbrev pub rounds_enough : ℕ
rounds_enough = 2

-- `switch_to`: the assembly of `cpu_switch_to` runs the next task from where it left off.
pub switch_to : System → ℕ → System
switch_to s next = if s.current == next then s else record s { current = next }

-- `none` is a loop that has not ended.
pub schedule_next : System → Option System
unfolding switch_to
schedule_next s = elim (choose rounds_enough s.task) [
  | none ↦ none
  | some (next, tasks) ↦ some (switch_to (record s { task = tasks }) next)
]

-- Changes the task at a place, if there is one.
pub update_task : System → ℕ → (Task → Task) → System
update_task s i f = elim (task_at s.task i) [
  | none ↦ s
  | some t ↦ record s { task = set s.task i (some (f t)) }
]

pub schedule : System → Option System
unfolding schedule_next update_task
schedule s = schedule_next (update_task s s.current (λ t. record t { counter = 0 }))

-- `current->counter`
abbrev pub time_left : System → ℕ
time_left s = elim (task_at s.task s.current) [ none ↦ 0 | some t ↦ t.counter ]

-- At 0 the code counts down to -1, which is not above 0 either.
pub timer_tick : System → Option System
unfolding schedule
timer_tick s =
    let s' = update_task s s.current (λ t. record t { counter = t.counter - 1 }) in
    if ltb 0 (time_left s') then some s' else schedule s'

pub exit_task : System → Option System
unfolding schedule
exit_task s = schedule (update_task s s.current (λ t. record t { state = zombie }))

-- What drives the scheduler: a timer interrupt, a task that waits, a task that ends.
pub data Event : Type 0 where
  tick yield exits : Event

pub step : System → Event → Option System
unfolding timer_tick schedule exit_task
step s tick = timer_tick s
step s yield = schedule s
step s exits = exit_task s

pub run : System → List Event → Option System
unfolding step
run s [] = some s
run s (e ∷ es) = elim (step s e) [ none ↦ none | some s' ↦ run s' es ]
