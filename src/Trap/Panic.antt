-- ===== src/Trap/Panic.antt =====
-- Which exceptions of a VM end in a PANIC.
use Prim.Native.Nat.{bit_and}
use mathlib.Core.Path.{subst}
use avisor.Prelude.{
  ℕ, ◌/◌, ◌<◌, ◌^◌, ◌≡◌, ◌≢◌, ◌⊎◌, inl, inr, refl, sym, ap, ◌∙◌, Bool, true, false, not, ◌==◌,
  if◌then◌else◌, arith, ==_iff, ==_of_ne, Bool-cases,
}
use avisor.Pages.{Machine, panic, get_free_page}
use avisor.Pages.Alloc.{IsPool, IsFree, page_addr, taken, get_free_page-cases}
use avisor.Bcm2837.Mmio.{World, Env}
use avisor.Trap.{
  field, translation_fault, handle_mem_abort, Outcome, goes_on, waits, panics,
  handle_sync_exception,
}
use avisor.Trap.Stranded.{IsStranded, ne_of_==, access_cases, pf}
use avisor.Trap.Abort.{IsDataAbort, data_abort, fault_of, access_of}

abbrev pub is_panic : Outcome → Bool
is_panic (goes_on w) = false
is_panic (waits w) = false
is_panic (panics w) = true

abbrev pub IsFull : Machine → Type 0
IsFull m = (k : ℕ) → k < m.pool.page_nr → ¬ IsFree m.pool k

-- The classes of `sync_error_reasons` that have a case of their own: WFI and WFE, floating point,
-- HVC, system registers, SVE and data aborts.
abbrev pub IsKnown : ℕ → Type 0
IsKnown class =
    (class ≡ 1) ⊎ (class ≡ 7) ⊎ (class ≡ 22) ⊎ (class ≡ 24) ⊎ (class ≡ 25) ⊎ (class ≡ 36)

-- What the hypervisor has no answer to: a class it does not know, and a data abort that is neither a
-- translation nor a permission fault.
abbrev pub IsUnhandled : ℕ → Type 0
IsUnhandled esr =
    let class = field esr 26 0x3f in
    let kind = bit_and esr 0x3f / 2 ^ 2 in
    (¬ IsKnown class) ⊎ ((class ≡ 36) × (kind ≢ 1) × (kind ≢ 3))

abbrev pub left_by : Outcome → World
left_by (goes_on w) = w
left_by (waits w) = w
left_by (panics w) = w

-- How a translation fault ends: in a PANIC if get_free_page has called it, for the page or for a
-- table, and with all else as it was where no page was free.
abbrev pub PageFault : World → Outcome → Type 0
PageFault w o =
    (is_panic o ≡ (left_by o).machine.pool.panicked)
    × (IsFull w.machine → o ≡ panics (record w { machine = panic w.machine }))

-- The dispatch on a class that is not that of a data abort.
dispatch :
    (class : ℕ) (fp hvc sys sve wfx last : World) (abort : Outcome)
    → class ≢ 36
    → let o =
        (if class == 1
          then waits wfx
          else if class == 7
          then goes_on fp
          else if class == 22
          then goes_on hvc
          else if class == 24
          then goes_on sys
          else if class == 25
          then goes_on sve
          else if class == 36
          then abort
          else panics last) in
      (IsKnown class × (is_panic o ≡ false)) ⊎ ((¬ IsKnown class) × (o ≡ panics last))
dispatch class fp hvc sys sve wfx last abort h = ground arith

-- An exception that is not a data abort.
other_class :
    (env : Env) (w : World) (esr far : ℕ)
    → field esr 26 0x3f ≢ 36
    → (IsKnown (field esr 26 0x3f) × (is_panic (handle_sync_exception env w esr far) ≡ false))
      ⊎ ((¬ IsKnown (field esr 26 0x3f)) × (handle_sync_exception env w esr far ≡ panics w))
unfolding handle_sync_exception
other_class env w esr far h = dispatch (field esr 26 0x3f) _ _ _ _ _ _ _ h

no_page :
    (env : Env) (w : World) (far : ℕ)
    → get_free_page w.machine ≡ (0, panic w.machine)
    → translation_fault env w far ≡ (false, record w { machine = panic w.machine })
unfolding translation_fault
no_page env w far e = rw e refl

-- The end of a data abort.
abbrev finish : Bool × World → Outcome
finish r = if r.0 then goes_on r.1 else panics r.1

some_page :
    (env : Env) (w : World) (far k : ℕ)
    → IsPool w.machine.pool
    → get_free_page w.machine ≡ (page_addr w.machine.pool k, taken w.machine k)
    → let o = finish (translation_fault env w far) in is_panic o ≡ (left_by o).machine.pool.panicked
unfolding translation_fault
some_page env w far k v e =
    rw (e, ==_of_ne (page_addr w.machine.pool k) 0 (λ z. omega (arith, z, v.above_null)))
      (either _ _ _ refl (λ alive. alive))
  where
    either :
        (b : Bool) (x y : World)
        → b ≡ x.machine.pool.panicked
        → (b ≡ false → y.machine.pool.panicked ≡ false)
        → let o = finish (if b then (false, x) else (true, y)) in
          is_panic o ≡ (left_by o).machine.pool.panicked
    either true x y p q = p
    either false x y p q = sym (q refl)

-- A status code that is neither a translation nor a permission fault.
other_status :
    (env : Env) (w : World) (esr far : ℕ)
    → bit_and esr 0x3f / 2 ^ 2 ≢ 1
    → bit_and esr 0x3f / 2 ^ 2 ≢ 3
    → handle_mem_abort env w far esr ≡ (false, w)
unfolding handle_mem_abort
other_status env w esr far h h' = rw (==_of_ne _ 1 h, ==_of_ne _ 3 h') refl

-- How a data abort of each status ends.
abbrev AbortEnd : Env → World → (esr far : ℕ) → Type 0
AbortEnd env w esr far =
    let kind = bit_and esr 0x3f / 2 ^ 2 in
    let r = handle_mem_abort env w far esr in
    ((kind ≢ 1) × (kind ≢ 3) × (r ≡ (false, w)))
    ⊎ (((kind ≡ 1) × PageFault w (finish r))
        ⊎ (((kind ≡ 3) × IsStranded env w esr far × (r.0 ≡ false))
            ⊎ ((kind ≡ 3) × (¬ IsStranded env w esr far) × (r.0 ≡ true))))

page_fault :
    (env : Env) (w : World) (far : ℕ)
    → IsPool w.machine.pool
    → PageFault w (finish (translation_fault env w far))
page_fault env w far v = elim (get_free_page-cases w.machine v) [
  | inl (full, got) ↦
      let e = ap finish (no_page env w far got) in
      (ap is_panic e ∙ sym (ap (λ o. (left_by o).machine.pool.panicked) e), λ _. e)
  | inr (k, lt, free, got) ↦ (some_page env w far k v got, λ full. absurd (full k lt free))
]

abort_cases : (env : Env) (w : World) (esr far : ℕ) → IsPool w.machine.pool → AbortEnd env w esr far
abort_cases env w esr far v =
    let kind = bit_and esr 0x3f / 2 ^ 2 in
    elim (Bool-cases (kind == 1)) [
      | inl e ↦
          let one : kind ≡ 1 = (==_iff kind 1).0 e in
          inr (
            inl (
              one,
              subst (λ r. PageFault w (finish r)) (sym (fault_of env w esr far one))
                  (page_fault env w far v),
            ))
      | inr e ↦ elim (Bool-cases (kind == 3)) [
        | inl e' ↦
            let three : kind ≡ 3 = (==_iff kind 3).0 e' in
            let end = ap (λ r. r.0) (access_of env w esr far three) ∙ pf env w esr far in
            elim (access_cases env w esr far) [
              | inl (stranded, dead) ↦ inr (inr (inl (three, stranded, end ∙ dead)))
              | inr (fine, alive) ↦ inr (inr (inr (three, fine, end ∙ alive)))
            ]
        | inr e' ↦ inl (
          ne_of_== kind 1 e,
          ne_of_== kind 3 e',
          other_status env w esr far (ne_of_== kind 1 e) (ne_of_== kind 3 e'),
        )
      ]
    ]

finish_lem : (r : Bool × World) → is_panic (finish r) ≡ not r.0
finish_lem (true, w) = refl
finish_lem (false, w) = refl

-- How an exception ends.
abbrev pub Ended : Env → World → (esr far : ℕ) → Type 0
Ended env w esr far =
    let stranded = IsDataAbort esr 3 × IsStranded env w esr far in
    let o = handle_sync_exception env w esr far in
    (IsUnhandled esr × (o ≡ panics w))
    ⊎ ((IsDataAbort esr 1 × PageFault w o)
        ⊎ ((stranded × (is_panic o ≡ true))
            ⊎ (((¬ IsUnhandled esr) × (¬ IsDataAbort esr 1) × (¬ stranded))
                × (is_panic o ≡ false))))

data_abort_cases :
    (env : Env) (w : World) (esr far : ℕ)
    → IsPool w.machine.pool
    → field esr 26 0x3f ≡ 36
    → Ended env w esr far
data_abort_cases env w esr far v class =
    let end = data_abort env w esr far _ (class, refl) in
    let end' = ap is_panic end ∙ finish_lem (handle_mem_abort env w far esr) in
    elim (abort_cases env w esr far v) [
      | inl (one, three, r) ↦ inl (inr (class, one, three), end ∙ ap finish r)
      | inr (inl (one, fault)) ↦ inr (inl ((class, one), subst (PageFault w) (sym end) fault))
      | inr (inr (inl (three, s, r))) ↦ inr (inr (inl (((class, three), s), end' ∙ ap not r)))
      | inr (inr (inr (three, fine, r))) ↦ inr (
          inr (
            inr (
              (handled class three, λ d. omega (arith, d.1, three), λ s. fine s.1),
              end' ∙ ap not r,
            )))
    ]
  where
    handled : field esr 26 0x3f ≡ 36 → bit_and esr 0x3f / 2 ^ 2 ≡ 3 → ¬ IsUnhandled esr
    handled c three (inl unknown) = unknown (inr (inr (inr (inr (inr c)))))
    handled c three (inr lost) = lost.2 three

-- Which exceptions end the VM in a PANIC. Those that the hypervisor has no answer to do, and leave
-- the VM, memory and the mailbox as they were. A translation fault does exactly if get_free_page
-- ran out of pages, for the page or for a table, and at once where no page was free. A VM that
-- hands over a mailbox buffer which is not mapped is ended. On any other exception the VM goes on
-- or waits.
pub handle_sync_exception-Ended :
    (env : Env) (w : World) (esr far : ℕ) → IsPool w.machine.pool → Ended env w esr far
handle_sync_exception-Ended env w esr far v = elim (Bool-cases (field esr 26 0x3f == 36)) [
  | inl e ↦ data_abort_cases env w esr far v ((==_iff _ 36).0 e)
  | inr e ↦
      let other = ne_of_== _ 36 e in
      elim (other_class env w esr far other) [
        | inl (known, fine) ↦
            inr (inr (inr ((answered known other, λ d. other d.0, λ s. other s.0.0), fine)))
        | inr (unknown, end) ↦ inl (inl unknown, end)
      ]
]
  where
    answered : IsKnown (field esr 26 0x3f) → field esr 26 0x3f ≢ 36 → ¬ IsUnhandled esr
    answered known other (inl unknown) = unknown known
    answered known other (inr lost) = other lost.0
