-- ===== src/Trap.antt =====
-- hypervisor/arch/aarch64/sync_exc.c: the exceptions that a VM takes to the hypervisor, and
-- hypervisor/common/mm.c: `handle_mem_abort`.
pub mod Names
pub mod System
pub mod Abort
pub mod Device
mod Stranded
pub mod Panic
mod Tests
use Prim.Native.Nat.{bit_and, bit_or}
use avisor.Prelude.{
  ℕ, ◌+◌, ◌*◌, ◌/◌, ◌%◌, ◌^◌, Bool, true, false, not, ◌&&◌, Option, none, some, List, [], ◌∷◌, ◌==◌,
  if◌then◌else◌,
}
use avisor.Pages.{Machine, get_free_page}
use avisor.Stage2.{Mm, page_mask, page_flags, map_stage2_page}
use avisor.Task.{
  Task, PtRegs, Stat, Sysreg, actlr_el1, id_pfr0_el1, id_pfr1_el1, id_mmfr0_el1, id_mmfr1_el1,
  id_mmfr2_el1, id_mmfr3_el1, id_isar0_el1, id_isar1_el1, id_isar2_el1, id_isar3_el1, id_isar4_el1,
  id_isar5_el1, mvfr0_el1, mvfr1_el1, mvfr2_el1, id_aa64pfr0_el1, id_aa64pfr1_el1, id_aa64dfr0_el1,
  id_aa64dfr1_el1, id_aa64isar0_el1, id_aa64isar1_el1, id_aa64mmfr0_el1, id_aa64mmfr1_el1,
  id_aa64afr0_el1, id_aa64afr1_el1, ctr_el0, ccsidr_el1, clidr_el1, csselr_el1, aidr_el1,
  revidr_el1,
}
use avisor.Regs.{reg, set_reg, increment_pc}
use avisor.Bcm2837.Mmio.{World, Env, bcm2837_mmio_read, bcm2837_mmio_write}

-- `(esr >> shift) & mask`
abbrev pub field : ℕ → (shift mask : ℕ) → ℕ
field esr shift mask = bit_and (esr / 2 ^ shift) mask

-- The op1, CRn, CRm and op2 of a system register, and the field that stands for it.
abbrev pub Encoding : Type 0
Encoding = ℕ × ℕ × ℕ × ℕ × Sysreg

-- The registers of DEFINE_SYSREG_MSR and of DEFINE_SYSREG_MRS, in their order.
abbrev pub msr_registers : List Encoding
msr_registers = (0, 1, 0, 1, actlr_el1) ∷ (1, 0, 0, 0, csselr_el1) ∷ []

abbrev pub mrs_registers : List Encoding
mrs_registers =
    (0, 1, 0, 1, actlr_el1)
    ∷ (0, 0, 1, 0, id_pfr0_el1)
    ∷ (0, 0, 1, 1, id_pfr1_el1)
    ∷ (0, 0, 1, 4, id_mmfr0_el1)
    ∷ (0, 0, 1, 5, id_mmfr1_el1)
    ∷ (0, 0, 1, 6, id_mmfr2_el1)
    ∷ (0, 0, 1, 7, id_mmfr3_el1)
    ∷ (0, 0, 2, 0, id_isar0_el1)
    ∷ (0, 0, 2, 1, id_isar1_el1)
    ∷ (0, 0, 2, 2, id_isar2_el1)
    ∷ (0, 0, 2, 3, id_isar3_el1)
    ∷ (0, 0, 2, 4, id_isar4_el1)
    ∷ (0, 0, 2, 5, id_isar5_el1)
    ∷ (0, 0, 3, 0, mvfr0_el1)
    ∷ (0, 0, 3, 1, mvfr1_el1)
    ∷ (0, 0, 3, 2, mvfr2_el1)
    ∷ (0, 0, 4, 0, id_aa64pfr0_el1)
    ∷ (0, 0, 4, 1, id_aa64pfr1_el1)
    ∷ (0, 0, 5, 0, id_aa64dfr0_el1)
    ∷ (0, 0, 5, 1, id_aa64dfr1_el1)
    ∷ (0, 0, 6, 0, id_aa64isar0_el1)
    ∷ (0, 0, 6, 1, id_aa64isar1_el1)
    ∷ (0, 0, 7, 0, id_aa64mmfr0_el1)
    ∷ (0, 0, 7, 1, id_aa64mmfr1_el1)
    ∷ (0, 0, 5, 4, id_aa64afr0_el1)
    ∷ (0, 0, 5, 5, id_aa64afr1_el1)
    ∷ (3, 0, 0, 1, ctr_el0)
    ∷ (1, 0, 0, 0, ccsidr_el1)
    ∷ (1, 0, 0, 1, clidr_el1)
    ∷ (2, 0, 0, 0, csselr_el1)
    ∷ (1, 0, 0, 7, aidr_el1)
    ∷ (0, 0, 0, 6, revidr_el1)
    ∷ []

-- The first register with these numbers.
abbrev pub find : List Encoding → (op1 crn crm op2 : ℕ) → Option Sysreg
find [] op1 crn crm op2 = none
find ((o1, n, m, o2, r) ∷ es) op1 crn crm op2 =
    if (op1 == o1) && (crn == n) && (crm == m) && (op2 == o2)
    then some r
    else find es op1 crn crm op2

-- The place of a field in `struct cpu_sysregs`.
abbrev pub place : Sysreg → ℕ
place Sysreg.sctlr_el1 = 0
place Sysreg.ttbr0_el1 = 1
place Sysreg.ttbr1_el1 = 2
place Sysreg.tcr_el1 = 3
place Sysreg.esr_el1 = 4
place Sysreg.far_el1 = 5
place Sysreg.afsr0_el1 = 6
place Sysreg.afsr1_el1 = 7
place Sysreg.mair_el1 = 8
place Sysreg.amair_el1 = 9
place Sysreg.contextidr_el1 = 10
place Sysreg.cpacr_el1 = 11
place Sysreg.elr_el1 = 12
place Sysreg.fpcr = 13
place Sysreg.fpsr = 14
place Sysreg.midr_el1 = 15
place Sysreg.mpidr_el1 = 16
place Sysreg.par_el1 = 17
place Sysreg.sp_el0 = 18
place Sysreg.sp_el1 = 19
place Sysreg.spsr_el1 = 20
place Sysreg.tpidr_el0 = 21
place Sysreg.tpidr_el1 = 22
place Sysreg.tpidrro_el0 = 23
place Sysreg.vbar_el1 = 24
place Sysreg.actlr_el1 = 25
place Sysreg.id_pfr0_el1 = 26
place Sysreg.id_pfr1_el1 = 27
place Sysreg.id_mmfr0_el1 = 28
place Sysreg.id_mmfr1_el1 = 29
place Sysreg.id_mmfr2_el1 = 30
place Sysreg.id_mmfr3_el1 = 31
place Sysreg.id_isar0_el1 = 32
place Sysreg.id_isar1_el1 = 33
place Sysreg.id_isar2_el1 = 34
place Sysreg.id_isar3_el1 = 35
place Sysreg.id_isar4_el1 = 36
place Sysreg.id_isar5_el1 = 37
place Sysreg.mvfr0_el1 = 38
place Sysreg.mvfr1_el1 = 39
place Sysreg.mvfr2_el1 = 40
place Sysreg.id_aa64pfr0_el1 = 41
place Sysreg.id_aa64pfr1_el1 = 42
place Sysreg.id_aa64dfr0_el1 = 43
place Sysreg.id_aa64dfr1_el1 = 44
place Sysreg.id_aa64isar0_el1 = 45
place Sysreg.id_aa64isar1_el1 = 46
place Sysreg.id_aa64mmfr0_el1 = 47
place Sysreg.id_aa64mmfr1_el1 = 48
place Sysreg.id_aa64afr0_el1 = 49
place Sysreg.id_aa64afr1_el1 = 50
place Sysreg.ctr_el0 = 51
place Sysreg.ccsidr_el1 = 52
place Sysreg.clidr_el1 = 53
place Sysreg.csselr_el1 = 54
place Sysreg.aidr_el1 = 55
place Sysreg.revidr_el1 = 56
place Sysreg.cntkctl_el1 = 57
place Sysreg.cntp_ctl_el0 = 58
place Sysreg.cntp_cval_el0 = 59
place Sysreg.cntp_tval_el0 = 60
place Sysreg.cntv_ctl_el0 = 61
place Sysreg.cntv_cval_el0 = 62
place Sysreg.cntv_tval_el0 = 63

-- `current->cpu_sysregs.name = v`
abbrev pub set_sysreg : (Sysreg → ℕ) → Sysreg → ℕ → Sysreg → ℕ
set_sysreg f r v s = if place s == place r then v else f s

-- The DEFINE_SYSREG_MSR and DEFINE_SYSREG_MRS of a matched register, or none.
abbrev pub write_sysreg : Task → Option Sysreg → ℕ → Task
write_sysreg tsk none rt = tsk
write_sysreg tsk (some r) rt = record tsk {
  cpu_sysregs = set_sysreg tsk.cpu_sysregs r (reg tsk.pt_regs rt);
}

abbrev pub read_sysreg : Task → Option Sysreg → ℕ → Task
read_sysreg tsk none rt = tsk
read_sysreg tsk (some r) rt = record tsk { pt_regs = set_reg tsk.pt_regs rt (tsk.cpu_sysregs r) }

-- The access of the instruction whose fields these are.
abbrev pub access : Task → (op0 op1 crn crm op2 rt dir : ℕ) → Task
access tsk op0 op1 crn crm op2 rt dir =
    let some_op0 = not (bit_and op0 2 == 0) in
    if some_op0 && (dir == 0)
    then write_sysreg tsk (find msr_registers op1 crn crm op2) rt
    else if some_op0 && (dir == 1)
    then read_sysreg tsk (find mrs_registers op1 crn crm op2) rt
    else tsk

-- Whatever is found, the instruction is skipped.
pub handle_trap_system : Task → (esr : ℕ) → Task
handle_trap_system tsk esr =
    increment_pc
      (access tsk (field esr 20 0x3) (field esr 14 0x7) (field esr 10 0xf) (field esr 1 0xf)
        (field esr 17 0x7) (field esr 5 0x1f) (bit_and esr 0x1))
      4

-- `get_ipa`
abbrev pub get_ipa : Env → ℕ → ℕ
get_ipa env va = bit_or (bit_and (env.translate_el1 va) 0xFFFFFFFFF000) (bit_and va 0xFFF)

-- A translation fault. The first part is false when PANIC has ended the task.
pub translation_fault : Env → World → ℕ → Bool × World
translation_fault env w addr =
    let (page, m) = get_free_page w.machine in
    if page == 0
    then (false, record w { machine = m })
    else (let (mm, m') =
          map_stage2_page m w.tsk.mm (bit_and (get_ipa env addr) page_mask) page page_flags in
        if m'.pool.panicked
        then (false, record w { machine = m'; tsk = record (w.tsk) { mm = mm } })
        else (
          true,
          record w {
            machine = m';
            tsk = record (w.tsk) {
              mm = mm;
              stat = record (w.tsk.stat) { pf_count = w.tsk.stat.pf_count + 1 };
            };
          },
        ))

-- The load or store of a permission fault. A task without a board has no such function. The first
-- part is false when PANIC has ended the task.
pub mmio_access : Env → World → (addr esr : ℕ) → Bool × World
mmio_access env w addr esr =
    let srt = field esr 16 0x1f in
    let (val, read) = bcm2837_mmio_read env w (get_ipa env addr) in
    if not w.tsk.has_board
    then (true, w)
    else if field esr 6 0x1 == 0
    then (
      true,
      record read { tsk = record (read.tsk) { pt_regs = set_reg read.tsk.pt_regs srt val } },
    )
    else bcm2837_mmio_write env w (get_ipa env addr) (reg w.tsk.pt_regs srt)

-- False also when PANIC has ended the task, and nothing after it is done.
pub permission_fault : Env → World → (addr esr : ℕ) → Bool × World
unfolding mmio_access
permission_fault env w addr esr =
    let (alive, done) = mmio_access env w addr esr in
    let tsk = increment_pc done.tsk 4 in
    if alive
    then (
      true,
      record done {
        tsk = record tsk { stat = record (tsk.stat) { mmio_count = tsk.stat.mmio_count + 1 } };
      },
    )
    else (false, done)

pub handle_mem_abort : Env → World → (addr esr : ℕ) → Bool × World
unfolding translation_fault permission_fault
handle_mem_abort env w addr esr =
    let dfsc = bit_and esr 0x3f in
    if dfsc / 2 ^ 2 == 0x1
    then translation_fault env w addr
    else if dfsc / 2 ^ 2 == 0x3
    then permission_fault env w addr esr
    else (false, w)

-- How the handler leaves a task: it goes on; it has called `schedule`, and goes on by `resume` when
-- it is switched to again; or PANIC has ended it.
pub data Outcome : Type 0 where
  goes_on waits panics : World → Outcome

-- The rest of `handle_trap_wfx`, after `schedule`.
abbrev pub resume : World → World
resume w = record w { tsk = increment_pc w.tsk 4 }

abbrev pub with_stat : World → Stat → World
with_stat w s = record w { tsk = record (w.tsk) { stat = s } }

-- `handle_hvc64` only logs.
pub handle_sync_exception : Env → World → (esr far : ℕ) → Outcome
unfolding handle_trap_system handle_mem_abort
handle_sync_exception env w esr far =
    let eclass = field esr 26 0x3f in
    let stat = w.tsk.stat in
    let (handled, w') = handle_mem_abort env w far esr in
    let counted = with_stat w (record stat { sysreg_trap_count = stat.sysreg_trap_count + 1 }) in
    if eclass == 1
    then waits (with_stat w (record stat { wfx_trap_count = stat.wfx_trap_count + 1 }))
    else if eclass == 7
    then goes_on w
    else if eclass == 22
    then goes_on (with_stat w (record stat { hvc_trap_count = stat.hvc_trap_count + 1 }))
    else if eclass == 24
    then goes_on (record counted { tsk = handle_trap_system counted.tsk esr })
    else if eclass == 25
    then goes_on w
    else if eclass == 36
    then if handled then goes_on w' else panics w'
    else panics w
