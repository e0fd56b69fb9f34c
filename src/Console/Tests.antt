-- ===== src/Console/Tests.antt =====
-- The console of a VM that has printed two characters, and the theorems at it.
use avisor.Prelude.{ℕ, ◌≡◌, arith, some, List, [], ◌∷◌, replicate, true}
use avisor.Fifo.{Fifo}
use avisor.Fifo.Refine.{contents}
use avisor.Board.{initial_state}
use avisor.Task.{Task, running}
use avisor.Bcm2837.Aux.Laws.{HasRings}
use avisor.Console.{flush_task_console}
use avisor.Console.Flush.{flush_task_console_lem}

abbrev ring : List ℕ → ℕ → Fifo
ring buf used = record { head = used; tail = 0; used = used; buf = buf }

abbrev vm : Task
vm = record {
  state = running;
  counter = 1;
  priority = 1;
  pid = 1;
  name = [];
  has_board = true;
  board_data = initial_state;
  mm = record { first_table = 0; user_pages_count = 0; kernel_pages_count = 0 };
  cpu_sysregs = λ r. 0;
  stat = record {
    wfx_trap_count = 0;
    hvc_trap_count = 0;
    sysreg_trap_count = 0;
    pf_count = 0;
    mmio_count = 0;
  };
  console = record {
    in_fifo = ring (replicate 256 0) 0;
    out_fifo = ring (72 ∷ 0x169 ∷ replicate 254 0) 2;
  };
  pt_regs = record { regs = replicate 31 0; sp = 0; pc = 0; pstate = 0 };
}

vm-HasRings : HasRings vm
vm-HasRings = record { in_ring = omega arith; out_ring = omega arith }

flush_task_console_lem_example :
    (after : Task) × (flush_task_console vm ≡ some (72 ∷ 0x69 ∷ [], after))
    × HasRings after
    × (contents after.console.out_fifo ≡ [])
    × (after.console.in_fifo ≡ vm.console.in_fifo)
flush_task_console_lem_example = flush_task_console_lem vm vm-HasRings
