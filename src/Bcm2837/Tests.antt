-- ===== src/Bcm2837/Tests.antt =====
-- A VM with the mini UART on and its console in use, and the theorems at it.
use avisor.Prelude.{
  ◌*◌, ℕ, ◌+◌, ◌%◌, ◌≤◌, ◌<◌, ◌≡◌, refl, arith, true, some, List, [], ◌∷◌, replicate,
}
use avisor.Fifo.{Fifo, is_empty_fifo, is_full_fifo, used_of_fifo}
use avisor.Fifo.Queue
use avisor.Pages.{Machine, rasp3b_page_pool}
use avisor.Pages.Count.{rasp3b_page_pool-IsPool}
use avisor.Stage2.Tree.{other, Roles, IsTree}
use avisor.Board.{pbase}
use avisor.Bcm2837.Init.{device_pages, bcm2837_initialize, devices_end}
use avisor.Bcm2837.Init.Laws.{Trapped, bcm2837_initialize-Trapped}
use avisor.Fifo.Refine.{contents}
use avisor.Board.{
  initial_state, aux_irq, aux_mu_iir_reg, aux_mu_io_reg, aux_mu_lsr_reg, aux_mu_stat_reg,
  irq_pending_2, enable_irqs_2,
}
use avisor.Task.{Task, running}
use avisor.Bcm2837.Aux.{handle_aux_read, handle_aux_write}
use avisor.Bcm2837.Aux.Laws.{HasRings, data_register_refines}
use avisor.Bcm2837.IntCtrl.{handle_intctrl_read, is_irq_asserted, is_fiq_asserted}
use avisor.Bcm2837.IntCtrl.Laws.{is_irq_asserted_lem}
use avisor.Bcm2837.SysTimer.{entering_vm, leaving_vm}
use avisor.Bcm2837.SysTimer.Laws.{virtual_count, InRange, entering_vm-leaving_vm, entering_vm-wakes}

abbrev ring : List ℕ → ℕ → Fifo
ring buf used = record { head = used; tail = 0; used = used; buf = buf }

-- Lines 1 and 25 of the first bank are enabled, the UART is on, timer 1 is armed, two characters
-- wait for the VM, and fast interrupts come from line 25 of the second bank.
abbrev vm : Task
vm = record {
  state = running;
  counter = 1;
  priority = 1;
  pid = 1;
  name = [];
  has_board = true;
  board_data = record initial_state {
    intctrl = record {
      fiq_control = 0x80 + 57;
      irqs_1_enabled = 0x2000002;
      irqs_2_enabled = 0;
      basic_irqs_enabled = 0;
    };
    aux = record (initial_state.aux) { aux_enables = 1 };
    systimer = record (initial_state.systimer) {
      c1 = 700;
      c1_64 = 700;
      last_physical_count = 1000;
      offset = 400;
    };
  };
  mm = record { first_table = 0; user_pages_count = 0; kernel_pages_count = 0 };
  cpu_sysregs = λ r. 0;
  stat = record {
    wfx_trap_count = 0;
    hvc_trap_count = 0;
    sysreg_trap_count = 0;
    pf_count = 0;
    mmio_count = 0;
  };
  console = record {
    in_fifo = ring (65 ∷ 66 ∷ replicate 254 0) 2;
    out_fifo = ring (replicate 256 0) 0;
  };
  pt_regs = record { regs = replicate 31 0; sp = 0; pc = 0; pstate = 0 };
}

-- The mini UART has no interrupt of its own to report, as its interrupts are not enabled, and the
-- interrupt controller reports one, also to a bank whose lines are all disabled.
spurious :
    ((handle_aux_read 0 vm aux_mu_iir_reg).0 ≡ 0xc1)
    × ((handle_aux_read 0 vm aux_irq).0 ≡ 1)
    × (handle_intctrl_read vm enable_irqs_2 ≡ 0)
    × (handle_intctrl_read vm irq_pending_2 ≡ 0x2000000)
    × (is_irq_asserted vm ≡ true)
    × (is_fiq_asserted vm ≡ true)
unfolding handle_aux_read handle_intctrl_read is_irq_asserted is_fiq_asserted
spurious = (refl, refl, refl, refl, refl, refl)

-- The line status register calls the transmitter idle, and the status register does not.
idle_bits :
    ((handle_aux_read 0 vm aux_mu_lsr_reg).0 ≡ 0x61)
    × ((handle_aux_read 0 vm aux_mu_stat_reg).0 ≡ 0x20103)
unfolding handle_aux_read is_empty_fifo is_full_fifo used_of_fifo
idle_bits = (refl, refl)

vm-HasRings : HasRings vm
vm-HasRings = record { in_ring = omega arith; out_ring = omega arith }

abbrev rx : Fifo
rx = vm.console.in_fifo

data_register_refines_example :
    let put = handle_aux_write vm aux_mu_io_reg 67 in
    let (char, got) = handle_aux_read 9 vm aux_mu_io_reg in
    (contents put.console.out_fifo ≡ 67 ∷ [])
    × (contents put.console.in_fifo ≡ 65 ∷ 66 ∷ [])
    × (char ≡ 65)
    × (contents got.console.in_fifo ≡ 66 ∷ [])
    × (contents got.console.out_fifo ≡ [])
unfolding Queue.enqueue Queue.dequeue
data_register_refines_example = data_register_refines 9 67 vm-HasRings refl refl

is_irq_asserted_lem_example : is_irq_asserted vm ≡ true
is_irq_asserted_lem_example = is_irq_asserted_lem vm

entering_vm-leaving_vm_example :
    virtual_count (entering_vm 5000 5000 0 (leaving_vm 1200 vm)).0 5000 ≡ 800
entering_vm-leaving_vm_example =
    entering_vm-leaving_vm 1200 5000 0 vm (omega arith) (omega arith) (omega arith)

vm-InRange : InRange vm.board_data.systimer
vm-InRange = omega arith

entering_vm-wakes_example :
    (d : ℕ) × (0 < d) × (d ≤ 97) × ((entering_vm 1000 1003 7 vm).1 ≡ some ((7 + d) % 0x100000000))
unfolding entering_vm
entering_vm-wakes_example =
    entering_vm-wakes 1000 1003 7 1 vm vm-InRange (omega arith) (omega arith) (omega arith)

-- The machine at the start, before any VM has tables.
abbrev machine : Machine
machine = record { pool = rasp3b_page_pool; mem = λ a. 0 }

abbrev no_roles : Roles
no_roles p = other

machine-IsTree : IsTree no_roles (λ t. 0) machine
machine-IsTree = record {
  pool = rasp3b_page_pool-IsPool.0;
  owned = λ p t path r. cc r;
  rooted = λ t h. absurd (h refl);
  entries = λ p t path i r short lt. cc r;
}

bcm2837_initialize-Trapped_example :
    let (tsk', m') = bcm2837_initialize 5 machine vm in
    Trapped (λ t. 0) machine 1 pbase devices_end (3 * device_pages + 1) (tsk'.mm, m')
bcm2837_initialize-Trapped_example =
    bcm2837_initialize-Trapped 5 vm 1 machine-IsTree refl (omega (arith, rasp3b_page_pool-IsPool.1))
