-- ===== src/Trap/Names.antt =====
-- The system registers that a VM is trapped for, by the numbers that the architecture gives them.
use mathlib.Core.Path.{subst}
use avisor.Prelude.{ℕ, ◌≡◌, refl, Option, none, some}
use avisor.Task.{
  Sysreg, actlr_el1, id_pfr0_el1, id_pfr1_el1, id_mmfr0_el1, id_mmfr1_el1, id_mmfr2_el1,
  id_mmfr3_el1, id_isar0_el1, id_isar1_el1, id_isar2_el1, id_isar3_el1, id_isar4_el1, id_isar5_el1,
  mvfr0_el1, mvfr1_el1, mvfr2_el1, id_aa64pfr0_el1, id_aa64pfr1_el1, id_aa64dfr0_el1,
  id_aa64dfr1_el1, id_aa64isar0_el1, id_aa64isar1_el1, id_aa64mmfr0_el1, id_aa64mmfr1_el1,
  id_aa64afr0_el1, id_aa64afr1_el1, ctr_el0, ccsidr_el1, clidr_el1, csselr_el1, aidr_el1,
  revidr_el1,
}
use avisor.Trap.{find, msr_registers, mrs_registers}

-- The op1, CRn, CRm and op2 that name a register of the groups that are trapped: the identification
-- registers, ACTLR_EL1, and the registers that describe the caches.
abbrev pub encoding : Sysreg → Option (ℕ × ℕ × ℕ × ℕ)
encoding r = elim r [
  | actlr_el1 ↦ some (0, 1, 0, 1)
  | id_pfr0_el1 ↦ some (0, 0, 1, 0)
  | id_pfr1_el1 ↦ some (0, 0, 1, 1)
  | id_mmfr0_el1 ↦ some (0, 0, 1, 4)
  | id_mmfr1_el1 ↦ some (0, 0, 1, 5)
  | id_mmfr2_el1 ↦ some (0, 0, 1, 6)
  | id_mmfr3_el1 ↦ some (0, 0, 1, 7)
  | id_isar0_el1 ↦ some (0, 0, 2, 0)
  | id_isar1_el1 ↦ some (0, 0, 2, 1)
  | id_isar2_el1 ↦ some (0, 0, 2, 2)
  | id_isar3_el1 ↦ some (0, 0, 2, 3)
  | id_isar4_el1 ↦ some (0, 0, 2, 4)
  | id_isar5_el1 ↦ some (0, 0, 2, 5)
  | mvfr0_el1 ↦ some (0, 0, 3, 0)
  | mvfr1_el1 ↦ some (0, 0, 3, 1)
  | mvfr2_el1 ↦ some (0, 0, 3, 2)
  | id_aa64pfr0_el1 ↦ some (0, 0, 4, 0)
  | id_aa64pfr1_el1 ↦ some (0, 0, 4, 1)
  | id_aa64dfr0_el1 ↦ some (0, 0, 5, 0)
  | id_aa64dfr1_el1 ↦ some (0, 0, 5, 1)
  | id_aa64isar0_el1 ↦ some (0, 0, 6, 0)
  | id_aa64isar1_el1 ↦ some (0, 0, 6, 1)
  | id_aa64mmfr0_el1 ↦ some (0, 0, 7, 0)
  | id_aa64mmfr1_el1 ↦ some (0, 0, 7, 1)
  | id_aa64afr0_el1 ↦ some (0, 0, 5, 4)
  | id_aa64afr1_el1 ↦ some (0, 0, 5, 5)
  | ctr_el0 ↦ some (3, 0, 0, 1)
  | ccsidr_el1 ↦ some (1, 0, 0, 0)
  | clidr_el1 ↦ some (1, 0, 0, 1)
  | csselr_el1 ↦ some (2, 0, 0, 0)
  | aidr_el1 ↦ some (1, 0, 0, 7)
  | revidr_el1 ↦ some (0, 0, 0, 6)
  | _ ↦ none
]

-- The field that an MSR of a register changes. CSSELR_EL1 is taken for the register that the numbers
-- 1, 0, 0, 0 name, which is CCSIDR_EL1.
abbrev pub changed_by : Sysreg → Option Sysreg
changed_by r = elim r [ actlr_el1 ↦ some actlr_el1 | ccsidr_el1 ↦ some csselr_el1 | _ ↦ none ]

abbrev IsRead : Sysreg → Option (ℕ × ℕ × ℕ × ℕ) → Type 0
IsRead r none = Unit {0}
IsRead r (some (op1, crn, crm, op2)) =
    (find mrs_registers op1 crn crm op2 ≡ some r)
    × (find msr_registers op1 crn crm op2 ≡ changed_by r)

each_IsRead : (r : Sysreg) → IsRead r (encoding r)
each_IsRead actlr_el1 = (refl, refl)
each_IsRead id_pfr0_el1 = (refl, refl)
each_IsRead id_pfr1_el1 = (refl, refl)
each_IsRead id_mmfr0_el1 = (refl, refl)
each_IsRead id_mmfr1_el1 = (refl, refl)
each_IsRead id_mmfr2_el1 = (refl, refl)
each_IsRead id_mmfr3_el1 = (refl, refl)
each_IsRead id_isar0_el1 = (refl, refl)
each_IsRead id_isar1_el1 = (refl, refl)
each_IsRead id_isar2_el1 = (refl, refl)
each_IsRead id_isar3_el1 = (refl, refl)
each_IsRead id_isar4_el1 = (refl, refl)
each_IsRead id_isar5_el1 = (refl, refl)
each_IsRead mvfr0_el1 = (refl, refl)
each_IsRead mvfr1_el1 = (refl, refl)
each_IsRead mvfr2_el1 = (refl, refl)
each_IsRead id_aa64pfr0_el1 = (refl, refl)
each_IsRead id_aa64pfr1_el1 = (refl, refl)
each_IsRead id_aa64dfr0_el1 = (refl, refl)
each_IsRead id_aa64dfr1_el1 = (refl, refl)
each_IsRead id_aa64isar0_el1 = (refl, refl)
each_IsRead id_aa64isar1_el1 = (refl, refl)
each_IsRead id_aa64mmfr0_el1 = (refl, refl)
each_IsRead id_aa64mmfr1_el1 = (refl, refl)
each_IsRead id_aa64afr0_el1 = (refl, refl)
each_IsRead id_aa64afr1_el1 = (refl, refl)
each_IsRead ctr_el0 = (refl, refl)
each_IsRead ccsidr_el1 = (refl, refl)
each_IsRead clidr_el1 = (refl, refl)
each_IsRead csselr_el1 = (refl, refl)
each_IsRead aidr_el1 = (refl, refl)
each_IsRead revidr_el1 = (refl, refl)
each_IsRead r = tt

from_some :
    (r : Sysreg) (o : Option (ℕ × ℕ × ℕ × ℕ)) (op1 crn crm op2 : ℕ)
    → IsRead r o
    → o ≡ some (op1, crn, crm, op2)
    → IsRead r (some (op1, crn, crm, op2))
from_some r o op1 crn crm op2 h e = subst (IsRead r) e h

-- Each of these registers is found by its numbers.
pub find_lem :
    (r : Sysreg) (op1 crn crm op2 : ℕ)
    → encoding r ≡ some (op1, crn, crm, op2)
    → (find mrs_registers op1 crn crm op2 ≡ some r)
      × (find msr_registers op1 crn crm op2 ≡ changed_by r)
find_lem r op1 crn crm op2 e = from_some r (encoding r) op1 crn crm op2 (each_IsRead r) e
