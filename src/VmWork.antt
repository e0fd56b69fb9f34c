-- ===== src/VmWork.antt =====
-- hypervisor/common/sched.c: what is done for a task whenever its VM is left and entered, with the
-- registers that hypervisor/arch/aarch64/utils.S saves and restores.
pub mod Laws
mod Tests
use Prim.Native.Nat.{bit_and, bit_or}
use avisor.Prelude.{
  ℕ, ◌+◌, ◌*◌, ◌^◌, ◌%◌, Bool, true, false, not, ◌&&◌, Option, none, some, List, [], ◌∷◌, ◌==◌,
  if◌then◌else◌, ltb,
}
use avisor.Task.{Task, Sysreg, midr_el1, mpidr_el1}
use avisor.Trap.{place}
use avisor.Console.{flush_task_console}
use avisor.Bcm2837.IntCtrl.{is_irq_asserted, is_fiq_asserted}
use avisor.Bcm2837.SysTimer.{entering_vm, leaving_vm}
use avisor.Uart.{is_uart_forwarded_task}

-- The processor: the system registers, those that a VM reads in place of MIDR_EL1 and MPIDR_EL1,
-- VTTBR_EL2, and whether HCR_EL2 asserts a virtual interrupt and a virtual fast interrupt.
pub record Cpu : Type 0 where
  pub sysregs : Sysreg → ℕ
  pub vpidr_el2 : ℕ
  pub vmpidr_el2 : ℕ
  pub vttbr_el2 : ℕ
  pub virq : Bool
  pub vfiq : Bool

-- The first 25 fields are saved and restored.
abbrev pub is_saved : Sysreg → Bool
is_saved r = ltb (place r) 25

-- These two are written to other registers.
abbrev pub is_id : Sysreg → Bool
is_id r = if place r == 15 then true else place r == 16

pub save_sysregs : Cpu → Task → Task
save_sysregs cpu tsk = record tsk {
  cpu_sysregs = λ r. if is_saved r then cpu.sysregs r else tsk.cpu_sysregs r;
}

pub restore_sysregs : Task → Cpu → Cpu
restore_sysregs tsk cpu = record cpu {
  sysregs = λ r. if is_saved r && not (is_id r) then tsk.cpu_sysregs r else cpu.sysregs r;
  vpidr_el2 = tsk.cpu_sysregs midr_el1;
  vmpidr_el2 = tsk.cpu_sysregs mpidr_el1;
}

pub set_cpu_sysregs : Task → Cpu → Cpu
unfolding restore_sysregs
set_cpu_sysregs tsk cpu =
    restore_sysregs tsk
      (record cpu { vttbr_el2 = bit_or tsk.mm.first_table (bit_and tsk.pid 0xff * 2 ^ 48) })

pub set_cpu_virtual_interrupt : Task → Cpu → Cpu
set_cpu_virtual_interrupt tsk cpu = record cpu {
  virq = tsk.has_board && is_irq_asserted tsk;
  vfiq = tsk.has_board && is_fiq_asserted tsk;
}

-- `if (is_uart_forwarded_task(current)) flush_task_console(current)`; none when it does not end.
pub flush_forwarded : (uart_forwarded_task : ℕ) → Task → Option (List ℕ × Task)
flush_forwarded forwarded tsk =
    let flushed = flush_task_console tsk in
    if is_uart_forwarded_task forwarded tsk then flushed else some ([], tsk)

-- What the hardware answers: two readings of the counter, and TIMER_CLO.
pub record Clock : Type 0 where
  pub count₁ : ℕ
  pub count₂ : ℕ
  pub clo : ℕ

abbrev pub enter_board : Clock → Task → Task × Option ℕ
enter_board c tsk = if tsk.has_board then entering_vm c.count₁ c.count₂ c.clo tsk else (tsk, none)

abbrev pub leave_board : Clock → Task → Task
leave_board c tsk = if tsk.has_board then leaving_vm c.count₁ tsk else tsk

-- The rest of the entry, when the console has been flushed.
pub set_cpu : Cpu → Option (List ℕ × Task) → Option (List ℕ × Task × Cpu)
unfolding set_cpu_sysregs set_cpu_virtual_interrupt
set_cpu cpu none = none
set_cpu cpu (some (chars, tsk)) =
    some (chars, tsk, set_cpu_virtual_interrupt tsk (set_cpu_sysregs tsk cpu))

-- What is printed, the task and the processor; the compare register of the timer is set to the
-- second part of `enter_board`.
pub vm_entering_work : (uart_forwarded_task : ℕ) → Clock → Task → Cpu → Option (List ℕ × Task × Cpu)
unfolding set_cpu flush_forwarded
vm_entering_work forwarded c tsk cpu = set_cpu cpu (flush_forwarded forwarded (enter_board c tsk).0)

pub vm_leaving_work : (uart_forwarded_task : ℕ) → Clock → Cpu → Task → Option (List ℕ × Task)
unfolding save_sysregs flush_forwarded
vm_leaving_work forwarded c cpu tsk =
    flush_forwarded forwarded (leave_board c (save_sysregs cpu tsk))
