-- ===== src/Sched/Tests.antt =====
-- A system of two tasks, and the theorems at it.
use avisor.Prelude.{
  ℕ, zero, suc, ◌^◌, ◌≡◌, refl, arith, true, Option, none, some, List, [], ◌∷◌, replicate,
}
use avisor.Fifo.{Fifo}
use avisor.Board.{initial_state}
use avisor.Prelude.Int.{to_int}
use avisor.Task.{Task, State, running}
use avisor.Sched.{
  System, tick, yield, exits, run, exit_task, choose, rounds_enough, select, recharge, task_at,
}
use avisor.Sched.Choice.{AllHavePriority, AllStayInt, Choice, choose-Choice}
use avisor.Sched.Bounds.{IsValid, is_fine, run-IsValid}
use avisor.Sched.Switch.{Switched, exit_task-Switched}

abbrev ring : Fifo
ring = record { head = 0; tail = 0; used = 0; buf = [] }

abbrev vm : State → ℕ → ℕ → Task
vm state counter pid = record {
  state = state;
  counter = counter;
  priority = 1;
  pid = pid;
  name = [];
  has_board = true;
  board_data = initial_state;
  mm = record { first_table = 0; user_pages_count = 0; kernel_pages_count = 0 };
  cpu_sysregs = λ r. 0;
  stat = record {
    wfx_trap_count = 0;
    hvc_trap_count = 0;
    sysreg_trap_count = 0;
    pf_count = 0;
    mmio_count = 0;
  };
  console = record { in_fifo = ring; out_fifo = ring };
  pt_regs = record { regs = replicate 31 0; sp = 0; pc = 0; pstate = 0 };
}

abbrev tasks : List (Option Task)
tasks = some (vm running 1 0) ∷ some (vm running 1 1) ∷ none ∷ []

abbrev system : System
system = record { task = tasks; current = 0; nr_tasks = 2 }

tasks-priority : AllHavePriority tasks
tasks-priority zero = refl
tasks-priority (suc zero) = refl
tasks-priority (suc (suc zero)) = refl
tasks-priority (suc (suc (suc i))) = refl

tasks-int : AllStayInt tasks
tasks-int zero = refl
tasks-int (suc zero) = refl
tasks-int (suc (suc zero)) = refl
tasks-int (suc (suc (suc i))) = refl

system-IsValid : IsValid system
system-IsValid = record { fine = fine; here = refl; init = refl }
  where
    fine : (i : ℕ) → is_fine (task_at tasks i) ≡ true
    fine zero = refl
    fine (suc zero) = refl
    fine (suc (suc zero)) = refl
    fine (suc (suc (suc i))) = refl

-- With no time left anywhere the counters are recharged and the first task runs.
recharges :
    choose rounds_enough (some (vm running 0 0) ∷ some (vm running 0 1) ∷ [])
    ≡ some (0, some (vm running 1 0) ∷ some (vm running 1 1) ∷ [])
unfolding choose select recharge to_int
recharges = refl

-- A counter that an `int` does not hold: `c` becomes 0 in every round, and the loop goes on.
truncated : choose 9 (some (record (vm running (2 ^ 32) 0) { priority = 2 ^ 31 }) ∷ []) ≡ none
unfolding choose select recharge to_int
truncated = refl

choose-Choice_example : Choice tasks (choose rounds_enough tasks)
choose-Choice_example = choose-Choice tasks tasks-priority tasks-int

run-IsValid_example : (s : System) × (run system (tick ∷ yield ∷ exits ∷ []) ≡ some s) × IsValid s
run-IsValid_example = run-IsValid (tick ∷ yield ∷ exits ∷ []) system system-IsValid

exit_task-Switched_example : (s : System) × (exit_task system ≡ some s) × Switched 0 s
exit_task-Switched_example =
    exit_task-Switched system 1 (vm running 1 0) (vm running 1 1) system-IsValid refl refl refl
      (omega arith)
