-- ===== src/Trap/Stranded.antt =====
-- The stores of a VM that end it: a mailbox buffer that is not mapped.
use avisor.Prelude.{
  ℕ, ◌≡◌, ◌≢◌, ◌↔◌, ◌⊎◌, inl, inr, refl, ◌∙◌, Bool, true, false, not, ◌&&◌, ◌==◌, if◌then◌else◌,
  arith, ==_iff, ==_of_ne, Bool-cases,
}
use avisor.Stage2.{check_task_page_mapped}
use avisor.Regs.{reg}
use avisor.Vmbox.{mbox_write, is_mbox_addr}
use avisor.Vmbox.Laws.{buffer_of, handle_mbox_write-alive}
use avisor.Bcm2837.IntCtrl.{addr_in_intctrl}
use avisor.Bcm2837.Aux.{addr_in_aux}
use avisor.Bcm2837.SysTimer.{addr_in_systimer}
use avisor.Bcm2837.Mmio.{World, Env, bcm2837_mmio_write}
use avisor.Trap.{field, permission_fault, mmio_access, get_ipa}

-- A store to the mailbox that hands over a buffer which is not mapped.
abbrev pub IsStranded : Env → World → (esr far : ℕ) → Type 0
IsStranded env w esr far =
    (w.tsk.has_board ≡ true)
    × (field esr 6 0x1 ≢ 0)
    × (get_ipa env far ≡ mbox_write)
    × ((check_task_page_mapped w.machine w.tsk.mm
          (buffer_of (reg w.tsk.pt_regs (field esr 16 0x1f)))).0
        ≡ false)

pub ne_of_== : (a b : ℕ) → (a == b) ≡ false → a ≢ b
ne_of_== a b e = ground arith

pub clash : (b : Bool) → b ≡ true → ¬ (b ≡ false)
clash b e h = grind arith

-- The dispatch of a write: only the mailbox can end the task.
only_mbox :
    (intctrl aux systimer mbox : Bool) (a b c d last : Bool × World)
    → a.0 ≡ true
    → b.0 ≡ true
    → c.0 ≡ true
    → d.0 ≡ true
    → last.0 ≡ true
    → (if intctrl then a else if aux then b else if systimer then c else if mbox then d else last).0
      ≡ true
only_mbox true aux systimer mbox a b c d last p q r s t = p
only_mbox false true systimer mbox a b c d last p q r s t = q
only_mbox false false true mbox a b c d last p q r s t = r
only_mbox false false false true a b c d last p q r s t = s
only_mbox false false false false a b c d last p q r s t = t

write-alive :
    (env : Env) (w : World) (addr val : ℕ)
    → addr ≢ mbox_write
    → (bcm2837_mmio_write env w addr val).0 ≡ true
unfolding bcm2837_mmio_write
write-alive env w addr val h =
    only_mbox (addr_in_intctrl addr) (addr_in_aux addr) (addr_in_systimer addr) (is_mbox_addr addr)
      _ _ _ _ _ refl refl refl
      (handle_mbox_write-alive env.gv2m w.machine w.tsk.mm w.mbox addr val
        ∙ rw (==_of_ne addr mbox_write h) refl)
      refl

write-mbox :
    (env : Env) (w : World) (addr val : ℕ)
    → addr ≡ mbox_write
    → (bcm2837_mmio_write env w addr val).0
      ≡ (check_task_page_mapped w.machine w.tsk.mm (buffer_of val)).0
unfolding bcm2837_mmio_write
write-mbox env w addr val h =
    rw h (handle_mbox_write-alive env.gv2m w.machine w.tsk.mm w.mbox mbox_write val)

pub pf :
    (env : Env) (w : World) (esr far : ℕ)
    → (permission_fault env w far esr).0 ≡ (mmio_access env w far esr).0
unfolding permission_fault
pf env w esr far = elim (Bool-cases (mmio_access env w far esr).0) [
  | inl e ↦ rw e refl
  | inr e ↦ rw e refl
]

-- Whether an access survives.
survives :
    (b c : Bool) (x y : World) (z : Bool × World)
    → (if not b then (true, x) else if c then (true, y) else z).0
      ≡ (if b && not c then z.0 else true)
survives true true x y z = refl
survives true false x y z = refl
survives false c x y z = refl

-- A store to the mailbox.
stores : Env → World → (esr far : ℕ) → Bool
stores env w esr far = w.tsk.has_board && not (field esr 6 0x1 == 0)

mmio_access-alive :
    (env : Env) (w : World) (esr far : ℕ)
    → (mmio_access env w far esr).0 ≡ (
        if stores env w esr far
        then (bcm2837_mmio_write env w (get_ipa env far) (reg w.tsk.pt_regs (field esr 16 0x1f))).0
        else true)
unfolding mmio_access stores
mmio_access-alive env w esr far = survives w.tsk.has_board (field esr 6 0x1 == 0) _ _ _

stores_iff :
    (env : Env) (w : World) (esr far : ℕ)
    → (stores env w esr far ≡ true) ↔ ((w.tsk.has_board ≡ true) × (field esr 6 0x1 ≢ 0))
unfolding stores
stores_iff env w esr far = ground arith

-- A permission fault ends the task or is handled.
pub access_cases :
    (env : Env) (w : World) (esr far : ℕ)
    → (IsStranded env w esr far × ((mmio_access env w far esr).0 ≡ false))
      ⊎ ((¬ IsStranded env w esr far) × ((mmio_access env w far esr).0 ≡ true))
access_cases env w esr far =
    let val = reg w.tsk.pt_regs (field esr 16 0x1f) in
    let alive = mmio_access-alive env w esr far in
    elim (Bool-cases (stores env w esr far)) [
      | inr e ↦ inr (λ s. clash _ ((stores_iff env w esr far).1 (s.0, s.1)) e, alive ∙ rw e refl)
      | inl store ↦ elim (Bool-cases (get_ipa env far == mbox_write)) [
        | inr e ↦ inr (
          λ s. ne_of_== _ _ e s.2,
          alive ∙ rw store (write-alive env w (get_ipa env far) val (ne_of_== _ _ e)),
        )
        | inl e ↦
            let at = write-mbox env w (get_ipa env far) val ((==_iff _ _).0 e) in
            let (board, dir) = (stores_iff env w esr far).0 store in
            elim (Bool-cases (check_task_page_mapped w.machine w.tsk.mm (buffer_of val)).0) [
              | inl m ↦ inr (λ s. clash _ m s.3, alive ∙ rw store (at ∙ m))
              | inr m ↦ inl ((board, dir, (==_iff _ _).0 e, m), alive ∙ rw store (at ∙ m))
            ]
      ]
    ]
