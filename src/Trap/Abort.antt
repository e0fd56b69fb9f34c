-- ===== src/Trap/Abort.antt =====
-- `handle_mem_abort` and `handle_sync_exception` on the data aborts of a VM: a page that it has
-- not touched before, and a device register.
use Prim.Native.Nat.{bit_and}
use avisor.Prelude.{
  if_false, ℕ, ◌+◌, ◌/◌, ◌<◌, ◌^◌, ◌≡◌, inl, inr, refl, ap, ◌∙◌, Bool, true, false, ◌==◌,
  if◌then◌else◌, arith, ==_of_ne, Bool-cases,
}
use avisor.Pages.{Machine, get_free_page}
use avisor.Pages.Count.{free_pages}
use avisor.Stage2.{Mm, page_mask, allocate_task_page}
use avisor.Stage2.Tree.{Roles, IsTree}
use avisor.Stage2.Alloc.{Allocated, allocate_task_page-Allocated}
use avisor.Bcm2837.Mmio.{World, Env}
use avisor.Trap.{
  field, get_ipa, translation_fault, permission_fault, handle_mem_abort, Outcome, goes_on, panics,
  handle_sync_exception,
}

-- The class of a data abort from a VM, and the two kinds of its status code.
abbrev pub IsDataAbort : (esr kind : ℕ) → Type 0
IsDataAbort esr kind = (field esr 26 0x3f ≡ 36) × (bit_and esr 0x3f / 2 ^ 2 ≡ kind)

-- A data abort is handled by handle_mem_abort.
pub data_abort :
    (env : Env) (w : World) (esr far kind : ℕ)
    → IsDataAbort esr kind
    → handle_sync_exception env w esr far ≡ (
        let (handled, w') = handle_mem_abort env w far esr in
        if handled then goes_on w' else panics w')
unfolding handle_sync_exception
data_abort env w esr far kind (class, status) = rw class

-- The outcome of a handled abort.
pub ended :
    {o : Outcome} {r : Bool × World} {w' : World}
    → o ≡ (let (handled, w') = r in if handled then goes_on w' else panics w')
    → r ≡ (true, w')
    → o ≡ goes_on w'
ended e h = e ∙ ap (λ r. if r.0 then goes_on r.1 else panics r.1) h

pub fault_of :
    (env : Env) (w : World) (esr far : ℕ)
    → bit_and esr 0x3f / 2 ^ 2 ≡ 1
    → handle_mem_abort env w far esr ≡ translation_fault env w far
unfolding handle_mem_abort
fault_of env w esr far h = rw h

pub access_of :
    (env : Env) (w : World) (esr far : ℕ)
    → bit_and esr 0x3f / 2 ^ 2 ≡ 3
    → handle_mem_abort env w far esr ≡ permission_fault env w far esr
unfolding handle_mem_abort
access_of env w esr far h = rw h

-- What a handled translation fault leaves.
abbrev pub after_fault : World → Mm → Machine → World
after_fault w mm m = record w {
  machine = m;
  tsk = record (w.tsk) {
    mm = mm;
    stat = record (w.tsk.stat) { pf_count = w.tsk.stat.pf_count + 1 };
  };
}

-- The page that a translation fault maps.
abbrev pub fault_page : Env → ℕ → ℕ
fault_page env far = bit_and (get_ipa env far) page_mask

-- A translation fault allocates a page for the task as `allocate_task_page` does.
translation_fault_lem :
    (env : Env) (w : World) (far : ℕ)
    → let (page, mm, m) = allocate_task_page w.machine w.tsk.mm (fault_page env far) in
      (page == 0) ≡ false
      → m.pool.panicked ≡ false
      → translation_fault env w far ≡ (true, after_fault w mm m)
unfolding translation_fault allocate_task_page
translation_fault_lem env w far = elim (Bool-cases ((get_free_page w.machine).0 == 0)) [
  | inl e ↦ rw e (λ (h : true ≡ false) alive. grind arith)
  | inr e ↦ rw e (λ h alive. if_false _ _ _ alive)
]

-- A VM that touches a page it has none at yet, while four pages are free: the data abort ends with
-- the task going on, its registers unchanged so that the access is made again, one more fault
-- counted, and a page that was free mapped where the access was; all that the tables of this and
-- of every other task held before is still found.
pub first_touch :
    {roles : Roles} {root : ℕ → ℕ} (env : Env) (w : World) (t esr far : ℕ)
    → IsTree roles root w.machine
    → root t ≡ w.tsk.mm.first_table
    → 3 < free_pages w.machine
    → IsDataAbort esr 1
    → (w' : World) × (page : ℕ) × (handle_sync_exception env w esr far ≡ goes_on w')
      × Allocated root w.machine t (fault_page env far) (page, w'.tsk.mm, w'.machine)
      × (w'.tsk.pt_regs ≡ w.tsk.pt_regs)
      × (w'.tsk.stat.pf_count ≡ w.tsk.stat.pf_count + 1)
first_touch env w t esr far v at_t enough kind =
    let done = allocate_task_page w.machine w.tsk.mm (fault_page env far) in
    let got = allocate_task_page-Allocated w.tsk.mm t (fault_page env far) v at_t enough in
    let taken =
      translation_fault_lem env w far
        (==_of_ne done.0 0 (λ e. omega (arith, e, got.page, v.pool.above_null)))
        got.tree.pool.alive in
    (
      after_fault w done.1 done.2,
      done.0,
      ended (data_abort env w esr far 1 kind) (fault_of env w esr far (kind.1) ∙ taken),
      got,
      refl,
      refl,
    )
