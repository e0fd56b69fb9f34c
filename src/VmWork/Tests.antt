-- ===== src/VmWork/Tests.antt =====
-- A VM that has the keyboard is left, and entered with other registers in the processor.
use avisor.Prelude.{ℕ, ◌≡◌, true, false, some, List}
use avisor.Samples.{vm, vm-HasRings}
use avisor.Task.{Task}
use avisor.VmWork.{Cpu, Clock, vm_entering_work, vm_leaving_work}
use avisor.VmWork.Laws.{Resumed, vm_entering_work-vm_leaving_work}

abbrev mine : Cpu
mine = record {
  sysregs = λ r. 3;
  vpidr_el2 = 0;
  vmpidr_el2 = 0;
  vttbr_el2 = 0;
  virq = false;
  vfiq = false;
}

abbrev theirs : Cpu
theirs = record mine { sysregs = λ r. 8; virq = true }

abbrev before : Clock
before = record { count₁ = 1000; count₂ = 1000; clo = 7 }

abbrev later : Clock
later = record { count₁ = 5000; count₂ = 5001; clo = 9 }

vm_entering_work-vm_leaving_work_example :
    (chars : List ℕ) × (t : Task) × (vm_leaving_work 1 before mine vm ≡ some (chars, t))
    × Resumed mine vm (vm_entering_work 0 later t theirs)
vm_entering_work-vm_leaving_work_example =
    vm_entering_work-vm_leaving_work 1 0 before later mine theirs vm vm-HasRings
