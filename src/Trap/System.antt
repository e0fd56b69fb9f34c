-- ===== src/Trap/System.antt =====
-- `handle_trap_system` on the instruction that the syndrome describes.
use Prim.Native.Nat.{bit_and}
use avisor.Prelude.{
  ℕ, ◌+◌, ◌*◌, ◌/◌, ◌%◌, ◌<◌, ◌^◌, ◌≡◌, ◌⊎◌, inl, inr, refl, ap, ◌∙◌, true, false, not, ◌&&◌,
  Option, none, some, ◌==◌, if◌then◌else◌, length, arith, get_or-set_self, get_or-set_ne,
}
use avisor.Prelude.Bits.{bit_and_low}
use avisor.Task.{Task, PtRegs, Sysreg}
use avisor.Regs.{reg, set_reg, increment_pc}
use avisor.Trap.Names.{encoding, changed_by, find_lem}
use avisor.Trap.{
  field, find, msr_registers, mrs_registers, place, write_sysreg, read_sysreg, access,
  handle_trap_system,
}

-- ESR_EL2 of a trapped MSR (`dir` 0) or MRS (`dir` 1), as the architecture lays it out.
abbrev pub syndrome : (op0 op1 crn crm op2 rt dir : ℕ) → ℕ
syndrome op0 op1 crn crm op2 rt dir =
    24 * 2 ^ 26
    + 2 ^ 25
    + op0 * 2 ^ 20
    + op2 * 2 ^ 17
    + op1 * 2 ^ 14
    + crn * 2 ^ 10
    + rt * 2 ^ 5
    + crm * 2
    + dir

-- The fields of an instruction fit.
pub record InRange (op0 op1 crn crm op2 rt dir : ℕ) : Type 0 where
  pub op0_in : op0 < 4
  pub op1_in : op1 < 8
  pub crn_in : crn < 16
  pub crm_in : crm < 16
  pub op2_in : op2 < 8
  pub rt_in : rt < 32
  pub dir_in : dir < 2

to_mrs :
    {op0 op1 crn crm op2 rt : ℕ}
    → InRange op0 op1 crn crm op2 rt 0
    → InRange op0 op1 crn crm op2 rt 1
to_mrs h = record {
  op0_in = h.op0_in;
  op1_in = h.op1_in;
  crn_in = h.crn_in;
  crm_in = h.crm_in;
  op2_in = h.op2_in;
  rt_in = h.rt_in;
  dir_in = omega arith;
}

-- The handler finds the fields of the instruction again.
syndrome_lem :
    (tsk : Task) (op0 op1 crn crm op2 rt dir : ℕ)
    → InRange op0 op1 crn crm op2 rt dir
    → handle_trap_system tsk (syndrome op0 op1 crn crm op2 rt dir)
      ≡ increment_pc (access tsk op0 op1 crn crm op2 rt dir) 4
unfolding handle_trap_system
syndrome_lem tsk op0 op1 crn crm op2 rt dir h =
    let esr = syndrome op0 op1 crn crm op2 rt dir in
    let e0 : field esr 20 0x3 ≡ op0 = bit_and_low 2 (esr / 2 ^ 20) ∙ omega arith in
    let e1 : field esr 14 0x7 ≡ op1 = bit_and_low 3 (esr / 2 ^ 14) ∙ omega arith in
    let e2 : field esr 10 0xf ≡ crn = bit_and_low 4 (esr / 2 ^ 10) ∙ omega arith in
    let e3 : field esr 1 0xf ≡ crm = bit_and_low 4 (esr / 2 ^ 1) ∙ omega arith in
    let e4 : field esr 17 0x7 ≡ op2 = bit_and_low 3 (esr / 2 ^ 17) ∙ omega arith in
    let e5 : field esr 5 0x1f ≡ rt = bit_and_low 5 (esr / 2 ^ 5) ∙ omega arith in
    let e6 : bit_and esr 0x1 ≡ dir = bit_and_low 1 esr ∙ omega arith in
    λ i. increment_pc (access tsk (e0 i) (e1 i) (e2 i) (e3 i) (e4 i) (e5 i) (e6 i)) 4

-- Bit 1 of op0 is set.
some_op0 : (op0 : ℕ) → (op0 ≡ 2) ⊎ (op0 ≡ 3) → not (bit_and op0 2 == 0) ≡ true
some_op0 op0 (inl e) = rw e
some_op0 op0 (inr e) = rw e

pub reg-set_reg :
    (r : PtRegs) (i j v : ℕ)
    → length r.regs ≡ 31
    → i < 32
    → reg (set_reg r i v) j ≡ (if j == i then v else reg r j)
reg-set_reg r i j v l h = ground (arith, get_or-set_self r.regs i v 0, get_or-set_ne r.regs i j v 0)

-- The two directions of an access.
access_mrs :
    (tsk : Task) (op0 op1 crn crm op2 rt : ℕ)
    → (op0 ≡ 2) ⊎ (op0 ≡ 3)
    → access tsk op0 op1 crn crm op2 rt 1 ≡ read_sysreg tsk (find mrs_registers op1 crn crm op2) rt
access_mrs tsk op0 op1 crn crm op2 rt real =
    ap
      (λ b.
        if b && false
        then write_sysreg tsk (find msr_registers op1 crn crm op2) rt
        else if b && true
        then read_sysreg tsk (find mrs_registers op1 crn crm op2) rt
        else tsk)
      (some_op0 op0 real)

access_msr :
    (tsk : Task) (op0 op1 crn crm op2 rt : ℕ)
    → (op0 ≡ 2) ⊎ (op0 ≡ 3)
    → access tsk op0 op1 crn crm op2 rt 0 ≡ write_sysreg tsk (find msr_registers op1 crn crm op2) rt
access_msr tsk op0 op1 crn crm op2 rt real =
    ap
      (λ b.
        if b && true
        then write_sysreg tsk (find msr_registers op1 crn crm op2) rt
        else if b && false
        then read_sysreg tsk (find mrs_registers op1 crn crm op2) rt
        else tsk)
      (some_op0 op0 real)

pub pc-set_reg : (r : PtRegs) (i v : ℕ) → (set_reg r i v).pc ≡ r.pc
pc-set_reg r i v = ground arith

-- What a register holds after a value may have been put in register `rt`, and a system register
-- after a value may have been put in one.
abbrev pub after_read : Task → Option Sysreg → (rt i : ℕ) → ℕ
after_read tsk none rt i = reg tsk.pt_regs i
after_read tsk (some r) rt i = if i == rt then tsk.cpu_sysregs r else reg tsk.pt_regs i

abbrev pub after_write : Task → Option Sysreg → (rt : ℕ) → Sysreg → ℕ
after_write tsk none rt s = tsk.cpu_sysregs s
after_write tsk (some r) rt s = if place s == place r then reg tsk.pt_regs rt else tsk.cpu_sysregs s

read_lem :
    (tsk : Task) (o : Option Sysreg) (rt i : ℕ)
    → length tsk.pt_regs.regs ≡ 31
    → rt < 32
    → (reg (read_sysreg tsk o rt).pt_regs i ≡ after_read tsk o rt i)
      × ((read_sysreg tsk o rt).cpu_sysregs ≡ tsk.cpu_sysregs)
      × ((read_sysreg tsk o rt).pt_regs.pc ≡ tsk.pt_regs.pc)
read_lem tsk none rt i l h = (refl, refl, refl)
read_lem tsk (some r) rt i l h =
    (reg-set_reg tsk.pt_regs rt i (tsk.cpu_sysregs r) l h, refl, ground arith)

write_lem :
    (tsk : Task) (o : Option Sysreg) (rt : ℕ) (s : Sysreg)
    → ((write_sysreg tsk o rt).cpu_sysregs s ≡ after_write tsk o rt s)
      × ((write_sysreg tsk o rt).pt_regs ≡ tsk.pt_regs)
write_lem tsk none rt s = (refl, refl)
write_lem tsk (some r) rt s = (refl, refl)

-- A trapped MRS that names, by the numbers of the architecture, one of the registers of `encoding`
-- puts the VM's own copy of this register in register `rt`, and changes no other register and no
-- system register. A trapped MSR that names ACTLR_EL1 puts register `rt` in the VM's copy of it; one
-- that names CCSIDR_EL1 puts it in the copy of CSSELR_EL1; one that names another of them, CSSELR_EL1
-- included, changes none. An MSR changes no other system register and no register. Both skip the
-- instruction.
pub handle_trap_system_lem :
    (tsk : Task) (r : Sysreg) (op0 op1 crn crm op2 rt i : ℕ) (s : Sysreg)
    → encoding r ≡ some (op1, crn, crm, op2)
    → InRange op0 op1 crn crm op2 rt 0
    → (op0 ≡ 2) ⊎ (op0 ≡ 3)
    → length tsk.pt_regs.regs ≡ 31
    → let mrs = handle_trap_system tsk (syndrome op0 op1 crn crm op2 rt 1) in
      let msr = handle_trap_system tsk (syndrome op0 op1 crn crm op2 rt 0) in
      let pc = (tsk.pt_regs.pc + 4) % 2 ^ 64 in
      (reg mrs.pt_regs i ≡ (if i == rt then tsk.cpu_sysregs r else reg tsk.pt_regs i))
      × (mrs.cpu_sysregs ≡ tsk.cpu_sysregs)
      × (mrs.pt_regs.pc ≡ pc)
      × (msr.cpu_sysregs s ≡ after_write tsk (changed_by r) rt s)
      × (reg msr.pt_regs i ≡ reg tsk.pt_regs i)
      × (msr.pt_regs.pc ≡ pc)
handle_trap_system_lem tsk r op0 op1 crn crm op2 rt i s named h real l =
    let (read, written) = find_lem r op1 crn crm op2 named in
    let mrs =
      syndrome_lem tsk op0 op1 crn crm op2 rt 1 (to_mrs h)
      ∙ ap (λ t. increment_pc t 4) (access_mrs tsk op0 op1 crn crm op2 rt real)
      ∙ ap (λ o. increment_pc (read_sysreg tsk o rt) 4) read in
    let msr =
      syndrome_lem tsk op0 op1 crn crm op2 rt 0 h
      ∙ ap (λ t. increment_pc t 4) (access_msr tsk op0 op1 crn crm op2 rt real)
      ∙ ap (λ o. increment_pc (write_sysreg tsk o rt) 4) written in
    let (r1, r2, r3) = read_lem tsk (some r) rt i l h.rt_in in
    let (w1, w2) = write_lem tsk (changed_by r) rt s in
    (
      ap (λ t. reg t.pt_regs i) mrs ∙ r1,
      ap (λ t. t.cpu_sysregs) mrs ∙ r2,
      ap (λ t. t.pt_regs.pc) mrs ∙ ap (λ pc. (pc + 4) % 2 ^ 64) r3,
      ap (λ t. t.cpu_sysregs s) msr ∙ w1,
      ap (λ t. reg t.pt_regs i) msr ∙ ap (λ r. reg r i) w2,
      ap (λ t. t.pt_regs.pc) msr ∙ ap (λ r. (r.pc + 4) % 2 ^ 64) w2,
    )
