-- ===== src/VmWork/Laws.antt =====
-- A VM finds its registers again, whoever ran meanwhile.
use Prim.Native.Nat.{bit_and, bit_or}
use avisor.Prelude.{
  ℕ, ◌*◌, ◌^◌, ◌≡◌, refl, ap, ◌∙◌, Bool, true, false, not, ◌&&◌, Option, none, some, List, [], ◌==◌,
  if◌then◌else◌,
}
use avisor.Task.{Task, Sysreg, midr_el1, mpidr_el1}
use avisor.Console.{flush_task_console}
use avisor.Console.Flush.{flush_task_console_lem, flush_task_console-rest}
use avisor.Bcm2837.Aux.Laws.{HasRings}
use avisor.Bcm2837.IntCtrl.{is_irq_asserted, is_fiq_asserted}
use avisor.Bcm2837.SysTimer.{entering_vm, leaving_vm}
use avisor.VmWork.{
  Cpu, Clock, is_saved, is_id, save_sysregs, restore_sysregs, set_cpu_sysregs,
  set_cpu_virtual_interrupt, flush_forwarded, enter_board, leave_board, set_cpu, vm_entering_work,
  vm_leaving_work,
}

-- A task with the system registers, the tables and the number of another, and well-formed rings.
pub record SameVm (s t : Task) : Type 0 where
  pub sysregs : t.cpu_sysregs ≡ s.cpu_sysregs
  pub tables : t.mm ≡ s.mm
  pub vmid : t.pid ≡ s.pid
  pub registers : t.pt_regs ≡ s.pt_regs
  pub board : t.has_board ≡ s.has_board
  pub rings : HasRings t

-- A flush ends with the same VM.
record Flushed (s : Task) (o : Option (List ℕ × Task)) : Type 0 where
  chars : List ℕ
  tsk : Task
  ends : o ≡ some (chars, tsk)
  same : SameVm s tsk

itself : (s : Task) → HasRings s → SameVm s s
itself s v = record {
  sysregs = refl;
  tables = refl;
  vmid = refl;
  registers = refl;
  board = refl;
  rings = v;
}

flush_forwarded-Flushed :
    (forwarded : ℕ) (s : Task) → HasRings s → Flushed s (flush_forwarded forwarded s)
unfolding flush_forwarded
flush_forwarded-Flushed forwarded s v =
    let (after, ends, ok, _, _) = flush_task_console_lem s v in
    let rest = flush_task_console-rest s _ after ends in
    let flushed : Flushed s (flush_task_console s) = record {
      chars = _;
      tsk = after;
      ends = ends;
      same = record {
        sysregs = ap (λ t. t.cpu_sysregs) rest;
        tables = ap (λ t. t.mm) rest;
        vmid = ap (λ t. t.pid) rest;
        registers = ap (λ t. t.pt_regs) rest;
        board = ap (λ t. t.has_board) rest;
        rings = ok;
      };
    } in
    either (s.pid == forwarded) flushed
      (record { chars = []; tsk = s; ends = refl; same = itself s v })
  where
    either :
        (b : Bool) {x y : Option (List ℕ × Task)}
        → Flushed s x
        → Flushed s y
        → Flushed s (if b then x else y)
    either true p q = p
    either false p q = q

-- The board of a task keeps to its timer.
same_if : (b : Bool) (s t : Task) → SameVm s s → SameVm s t → SameVm s (if b then t else s)
same_if true s t p q = q
same_if false s t p q = p

leave_board-SameVm : (c : Clock) (s : Task) → HasRings s → SameVm s (leave_board c s)
unfolding leaving_vm
leave_board-SameVm c s v = same_if s.has_board s (leaving_vm c.count₁ s) (itself s v) (record {
  sysregs = refl;
  tables = refl;
  vmid = refl;
  registers = refl;
  board = refl;
  rings = record { in_ring = v.in_ring; out_ring = v.out_ring };
})

enter_board-SameVm : (c : Clock) (s : Task) → HasRings s → SameVm s (enter_board c s).0
unfolding entering_vm
enter_board-SameVm c s v = choose s.has_board
  where
    entered : SameVm s (entering_vm c.count₁ c.count₂ c.clo s).0
    entered = record {
      sysregs = refl;
      tables = refl;
      vmid = refl;
      registers = refl;
      board = refl;
      rings = record { in_ring = v.in_ring; out_ring = v.out_ring };
    }

    choose :
        (b : Bool) → SameVm s (if b then entering_vm c.count₁ c.count₂ c.clo s else (s, none)).0
    choose true = entered
    choose false = itself s v

SameVm-trans : {r s t : Task} → SameVm r s → SameVm s t → SameVm r t
SameVm-trans p q = record {
  sysregs = q.sysregs ∙ p.sysregs;
  tables = q.tables ∙ p.tables;
  vmid = q.vmid ∙ p.vmid;
  registers = q.registers ∙ p.registers;
  board = q.board ∙ p.board;
  rings = q.rings;
}

-- What a VM that was left by a processor finds when it is entered again.
pub record Resumed (cpu : Cpu) (s : Task) (o : Option (List ℕ × Task × Cpu)) : Type 0 where
  pub chars : List ℕ
  pub tsk : Task
  pub cpu' : Cpu
  pub ends : o ≡ some (chars, tsk, cpu')
  pub sysregs : (r : Sysreg) → is_saved r ≡ true → is_id r ≡ false → cpu'.sysregs r ≡ cpu.sysregs r
  pub ids : (cpu'.vpidr_el2 ≡ cpu.sysregs midr_el1) × (cpu'.vmpidr_el2 ≡ cpu.sysregs mpidr_el1)
  pub tables : cpu'.vttbr_el2 ≡ bit_or s.mm.first_table (bit_and s.pid 0xff * 2 ^ 48)
  pub registers : tsk.pt_regs ≡ s.pt_regs
  pub interrupts :
      (cpu'.virq ≡ (tsk.has_board && is_irq_asserted tsk))
      × (cpu'.vfiq ≡ (tsk.has_board && is_fiq_asserted tsk))
  pub rings : HasRings tsk

restored : (b c : Bool) (x y : ℕ) → b ≡ true → c ≡ false → (if b && not c then x else y) ≡ x
restored b c x y p q = rw (p, q) refl

saved : (b : Bool) (x y : ℕ) → b ≡ true → (if b then x else y) ≡ x
saved b x y p = rw p refl

-- A VM is left and later entered again, whatever the processor holds then and wherever the keyboard
-- is: both works end; every system register that is saved, other than MIDR_EL1 and MPIDR_EL1, holds
-- what it held; the registers that the VM reads in place of those two hold what the processor's own
-- MIDR_EL1 and MPIDR_EL1 held when the VM was left; the tables and the VMID are those of the task;
-- its general registers are unchanged; and the virtual interrupts are asserted as the board says.
pub vm_entering_work-vm_leaving_work :
    (forwarded forwarded' : ℕ) (c c' : Clock) (cpu other : Cpu) (s : Task)
    → HasRings s
    → (chars : List ℕ) × (t : Task) × (vm_leaving_work forwarded c cpu s ≡ some (chars, t))
      × Resumed cpu s (vm_entering_work forwarded' c' t other)
unfolding vm_leaving_work vm_entering_work save_sysregs set_cpu set_cpu_sysregs restore_sysregs
    set_cpu_virtual_interrupt
vm_entering_work-vm_leaving_work forwarded forwarded' c c' cpu other s v =
    let s₁ = save_sysregs cpu s in
    let v₁ : HasRings s₁ = record { in_ring = v.in_ring; out_ring = v.out_ring } in
    let left = leave_board-SameVm c s₁ v₁ in
    let flushed = flush_forwarded-Flushed forwarded (leave_board c s₁) left.rings in
    let t = flushed.tsk in
    let entered = enter_board-SameVm c' t flushed.same.rings in
    let shown = flush_forwarded-Flushed forwarded' (enter_board c' t).0 entered.rings in
    let u = shown.tsk in
    let all = SameVm-trans (SameVm-trans left flushed.same) (SameVm-trans entered shown.same) in
    (
      flushed.chars,
      t,
      flushed.ends,
      record {
        chars = shown.chars;
        tsk = u;
        cpu' = set_cpu_virtual_interrupt u (set_cpu_sysregs u other);
        ends = ap (set_cpu other) shown.ends;
        sysregs = λ r h k.
            restored (is_saved r) (is_id r) (u.cpu_sysregs r) (other.sysregs r) h k
            ∙ ap (λ f. f r) all.sysregs
            ∙ saved (is_saved r) (cpu.sysregs r) (s.cpu_sysregs r) h;
        ids = (ap (λ f. f midr_el1) all.sysregs, ap (λ f. f mpidr_el1) all.sysregs);
        tables =
            ap (λ mm. bit_or mm.first_table (bit_and u.pid 0xff * 2 ^ 48)) all.tables
            ∙ ap (λ n. bit_or s.mm.first_table (bit_and n 0xff * 2 ^ 48)) all.vmid;
        registers = all.registers;
        interrupts = (refl, refl);
        rings = all.rings;
      },
    )
