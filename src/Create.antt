-- ===== src/Create.antt =====
-- hypervisor/arch/aarch64/task.c: `create_task`, and `init_task_console` and
-- `bcm2837_initialize` as it calls them. What the assembly needs to enter the task, `cpu_context`,
-- is not modelled.
pub mod Laws
mod Tests
use Prim.Native.Nat.{bit_and}
use avisor.Prelude.{
  ℕ, zero, suc, ◌+◌, ◌-◌, ◌%◌, ◌^◌, Bool, true, false, Option, none, some, List, [], ◌∷◌, ◌==◌,
  if◌then◌else◌, replicate, set,
}
use avisor.Prelude.Bits.{complement}
use avisor.Pages.{Machine, allocate_page}
use avisor.Board.{initial_state}
use avisor.Task.{Task, Sysreg, running}
use avisor.Sched.{System, task_at}
use avisor.Bcm2837.Init.{bcm2837_initialize}
use avisor.Console.{init_task_console}

-- `initial_sysregs`: what the processor's registers were at the first call, without the bit of
-- SCTLR_EL1 that turns the MMU on.
pub prepare_initial_sysregs : (Sysreg → ℕ) → Sysreg → ℕ
prepare_initial_sysregs regs Sysreg.sctlr_el1 = bit_and (regs Sysreg.sctlr_el1) (complement 64 1)
prepare_initial_sysregs regs r = regs r

-- `current->priority`
abbrev pub current_priority : System → ℕ
current_priority sys = elim (task_at sys.task sys.current) [ none ↦ 0 | some t ↦ t.priority ]

-- A cleared page, with what is set before the board is initialised. The rings are set last.
abbrev pub new_task : System → Task
new_task sys = record {
  state = running;
  counter = current_priority sys;
  priority = current_priority sys;
  pid = 0;
  name = 86 ∷ 77 ∷ [];
  has_board = true;
  board_data = initial_state;
  mm = record { first_table = 0; user_pages_count = 0; kernel_pages_count = 0 };
  cpu_sysregs = λ r. 0;
  stat = record {
    wfx_trap_count = 0;
    hvc_trap_count = 0;
    sysreg_trap_count = 0;
    pf_count = 0;
    mmio_count = 0;
  };
  console = record {
    in_fifo = record { head = 0; tail = 0; used = 0; buf = [] };
    out_fifo = record { head = 0; tail = 0; used = 0; buf = [] };
  };
  pt_regs = record { regs = replicate 31 0; sp = 0; pc = 0; pstate = 0 };
}

-- The registers of the processor and the physical counter are read while it runs. The result is
-- the `pid`, or none for -1 and where PANIC has ended the current task, before the new task is stored
-- or after that. Beyond the last place of `task` nothing is stored, where the code
-- writes past the array.
pub create_task :
    (sysregs : Sysreg → ℕ) → (count : ℕ) → Machine → System → Option ℕ × Machine × System
unfolding prepare_initial_sysregs
create_task sysregs count m sys =
    let (page, m₁) = allocate_page m in
    let (ready, m₂) = bcm2837_initialize count m₁ (new_task sys) in
    let pid = sys.nr_tasks in
    let named : Task = record ready { cpu_sysregs = prepare_initial_sysregs sysregs; pid = pid } in
    let (p, m₃) = init_task_console m₂ named in
    if page == 0 then (none, m₁, sys) else if m₂.pool.panicked then (none, m₂, sys) else (
      if m₃.pool.panicked then none else some pid,
      m₃,
      record sys { nr_tasks = pid + 1; task = set sys.task pid (some p) },
    )
