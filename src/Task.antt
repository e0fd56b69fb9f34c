-- ===== src/Task.antt =====
-- include/common/sched.h and include/common/task.h: a task, that is a VM or the hypervisor.
use avisor.Prelude.{ℕ, Bool, List}
use avisor.Fifo.{Fifo}
use avisor.Stage2.{Mm}
use avisor.Board.{BoardState}

-- The fields of `struct cpu_sysregs`.
pub data Sysreg : Type 0 where
  sctlr_el1 ttbr0_el1 ttbr1_el1 tcr_el1 esr_el1 far_el1 afsr0_el1 afsr1_el1 mair_el1 : Sysreg
  amair_el1 contextidr_el1 cpacr_el1 elr_el1 fpcr fpsr midr_el1 mpidr_el1 par_el1 : Sysreg
  sp_el0 sp_el1 spsr_el1 tpidr_el0 tpidr_el1 tpidrro_el0 vbar_el1 actlr_el1 id_pfr0_el1 : Sysreg
  id_pfr1_el1 id_mmfr0_el1 id_mmfr1_el1 id_mmfr2_el1 id_mmfr3_el1 id_isar0_el1 : Sysreg
  id_isar1_el1 id_isar2_el1 id_isar3_el1 id_isar4_el1 id_isar5_el1 mvfr0_el1 mvfr1_el1 : Sysreg
  mvfr2_el1 id_aa64pfr0_el1 id_aa64pfr1_el1 id_aa64dfr0_el1 id_aa64dfr1_el1 : Sysreg
  id_aa64isar0_el1 id_aa64isar1_el1 id_aa64mmfr0_el1 id_aa64mmfr1_el1 id_aa64afr0_el1 : Sysreg
  id_aa64afr1_el1 ctr_el0 ccsidr_el1 clidr_el1 csselr_el1 aidr_el1 revidr_el1 : Sysreg
  cntkctl_el1 cntp_ctl_el0 cntp_cval_el0 cntp_tval_el0 cntv_ctl_el0 cntv_cval_el0 : Sysreg
  cntv_tval_el0 : Sysreg

-- `struct pt_regs`, at the top of the task's page.
pub record PtRegs : Type 0 where
  pub regs : List ℕ
  pub sp : ℕ
  pub pc : ℕ
  pub pstate : ℕ

-- `struct task_stat`
pub record Stat : Type 0 where
  pub wfx_trap_count : ℕ
  pub hvc_trap_count : ℕ
  pub sysreg_trap_count : ℕ
  pub pf_count : ℕ
  pub mmio_count : ℕ

-- `struct task_console`
pub record Console : Type 0 where
  pub in_fifo : Fifo
  pub out_fifo : Fifo

-- TASK_RUNNING and TASK_ZOMBIE
pub data State : Type 0 where
  running zombie : State

-- `struct task_struct`, with the `pt_regs` of its page. `cpu_context`, which only the assembly
-- reads, is left out, and so are `flags` and `preempt_count`, which nothing reads.
pub record Task : Type 0 where
  pub state : State
  pub counter : ℕ
  pub priority : ℕ
  pub pid : ℕ
  pub name : List ℕ
  pub has_board : Bool
  pub board_data : BoardState
  pub mm : Mm
  pub cpu_sysregs : Sysreg → ℕ
  pub stat : Stat
  pub console : Console
  pub pt_regs : PtRegs
