-- ===== src/Samples.antt =====
-- A VM whose board has the mini UART on, with two characters waiting, and a machine of eight free
-- pages: what the examples of several modules start from.
use avisor.Prelude.{ℕ, refl, arith, true, false, List, [], ◌∷◌, replicate}
use avisor.Fifo.{Fifo}
use avisor.Pages.{Machine, low_memory}
use avisor.Stage2.Tree.{other, Roles, IsTree}
use avisor.Task.{Task, running}
use avisor.Board.{initial_state}
use avisor.Bcm2837.Aux.Laws.{HasRings}

abbrev pub ring : List ℕ → ℕ → Fifo
ring buf used = record { head = used; tail = 0; used = used; buf = buf }

abbrev pub vm : Task
vm = record {
  state = running;
  counter = 1;
  priority = 1;
  pid = 1;
  name = [];
  has_board = true;
  board_data = record initial_state { aux = record (initial_state.aux) { aux_enables = 1 } };
  mm = record { first_table = 0; user_pages_count = 0; kernel_pages_count = 0 };
  cpu_sysregs = λ r. 77;
  stat = record {
    wfx_trap_count = 0;
    hvc_trap_count = 0;
    sysreg_trap_count = 0;
    pf_count = 0;
    mmio_count = 0;
  };
  console = record {
    in_fifo = ring (65 ∷ 66 ∷ replicate 254 0) 2;
    out_fifo = ring (replicate 256 0) 0;
  };
  pt_regs = record { regs = 0x141 ∷ 0x242 ∷ replicate 29 5; sp = 6; pc = 0x80000; pstate = 0 };
}

abbrev pub machine : Machine
machine = record {
  pool = record {
    start_addr = low_memory;
    page_nr = 8;
    memap = replicate 8 0;
    last_page_id = 0;
    panicked = false;
  };
  mem = λ a. 0;
}

abbrev pub no_roles : Roles
no_roles p = other

pub machine-IsTree : IsTree no_roles (λ t. 0) machine
machine-IsTree = record {
  pool = record {
    alive = refl;
    mapped = refl;
    some_page = omega arith;
    last_in = omega arith;
    above_null = omega arith;
    aligned = refl;
    fits = omega arith;
  };
  owned = λ p t path r. cc r;
  rooted = λ t h. absurd (h refl);
  entries = λ p t path i r short lt. cc r;
}

pub vm-HasRings : HasRings vm
vm-HasRings = record { in_ring = omega arith; out_ring = omega arith }
