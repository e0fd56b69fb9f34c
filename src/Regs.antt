-- ===== src/Regs.antt =====
-- The saved registers of a VM (include/common/task.h, hypervisor/arch/aarch64/task.c).
use avisor.Prelude.{ℕ, ◌+◌, ◌%◌, ◌^◌, ◌==◌, if◌then◌else◌, get_or, set}
use avisor.Task.{Task, PtRegs}

-- `regs->regs[i]` for a register number of five bits: the array has 31 elements, and `sp` follows.
abbrev pub reg : PtRegs → ℕ → ℕ
reg r i = if i == 31 then r.sp else get_or r.regs i 0

abbrev pub set_reg : PtRegs → ℕ → ℕ → PtRegs
set_reg r i v = if i == 31 then record r { sp = v } else record r { regs = set r.regs i v }

-- `increment_current_pc`
abbrev pub increment_pc : Task → ℕ → Task
increment_pc tsk ilen = record tsk {
  pt_regs = record (tsk.pt_regs) { pc = (tsk.pt_regs.pc + ilen) % 2 ^ 64 };
}
