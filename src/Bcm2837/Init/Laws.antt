-- ===== src/Bcm2837/Init/Laws.antt =====
-- What a new VM finds at the addresses of the devices.
use mathlib.Core.Path.{subst, fun_ext}
use avisor.Prelude.{
  List, [], ◌∷◌, ℕ, zero, suc, ◌+◌, ◌*◌, ◌%◌, ◌≤◌, ◌<◌, ◌^◌, ◌≡◌, inl, inr, refl, sym, ap, ◌∙◌,
  Bool, ◌&&◌, ltb, leb, ◌==◌, if◌then◌else◌, arith, ==_refl, ==_iff, Bool-cases, lt→ltb,
}
use avisor.Pages.{Machine, page_size}
use avisor.Pages.Count.{free_pages, get_free_page-some, allocate_page-taken}
use avisor.Stage2.{Mm, mmio_page_flags, set_task_page_notaccessable}
use avisor.Stage2.Tree.{Roles, IsTree, translate}
use avisor.Stage2.Tree.Grow.{taken-IsTree}
use avisor.Stage2.Tree.Step.{taken-Extends}
use avisor.Stage2.Map.{point, is_page, translate-same}
use avisor.Stage2.Alloc.{set_task_page_notaccessable-flags}
use avisor.Board.{pbase}
use avisor.Task.{Task}
use avisor.Bcm2837.Init.{trap_pages, bcm2837_initialize, device_pages, devices_end}

-- The address, of the 39 bits that the tables resolve, is at least `begin` and below `end`.
abbrev pub is_between : (begin end va : ℕ) → Bool
is_between begin end va = leb begin (va % 2 ^ 39) && ltb (va % 2 ^ 39) end

-- The tables after some pages of task `t` were made inaccessible, for which at most `most` pages
-- were taken.
pub record Trapped (root : ℕ → ℕ) (m : Machine) (t begin end most : ℕ) (out : Mm × Machine)
    : Type 0 where
  pub roles' : Roles
  pub tree : IsTree roles' (point root t out.0.first_table) out.1
  pub found :
      (u va : ℕ)
      → translate out.1.mem (point root t out.0.first_table u) va ≡ (
          if (u == t) && is_between begin end va
          then mmio_page_flags
          else translate m.mem (root u) va)
  pub pages : free_pages m ≤ free_pages out.1 + most

point-same : (root : ℕ → ℕ) (t p : ℕ) → root t ≡ p → (u : ℕ) → point root t p u ≡ root u
point-same root t p e u = elim (Bool-cases (u == t)) [
  | inl hit ↦ rw hit (sym e ∙ ap root (sym ((==_iff u t).0 hit)))
  | inr miss ↦ rw miss
]

point-point : (root : ℕ → ℕ) (t p q : ℕ) → (u : ℕ) → point (point root t p) t q u ≡ point root t q u
point-point root t p q u = elim (Bool-cases (u == t)) [ inl hit ↦ rw hit | inr miss ↦ rw miss ]

-- One page, and those after it.
split_range :
    (t begin end u va d e : ℕ)
    → begin % page_size ≡ 0
    → begin + page_size ≤ end
    → end ≤ 2 ^ 39
    → (if (u == t) && is_between (begin + page_size) end va
        then d
        else (if is_page t begin u va then d else e))
      ≡ (if (u == t) && is_between begin end va then d else e)
split_range t begin end u va d e aligned fits low = ground arith

-- From the first of some neighbouring pages to the last.
trap_pages-Trapped :
    (pages : ℕ) {roles : Roles} {root : ℕ → ℕ} {m : Machine} (mm : Mm) (t begin end : ℕ)
    → IsTree roles root m
    → root t ≡ mm.first_table
    → 3 * pages ≤ free_pages m
    → begin % page_size ≡ 0
    → end ≡ begin + pages * page_size
    → end ≤ 2 ^ 39
    → Trapped root m t begin end (3 * pages) (trap_pages pages m mm begin end)
unfolding trap_pages
trap_pages-Trapped zero {roles} {root} {m} mm t begin end v at_t enough aligned e low = record {
  roles' = roles;
  tree = subst (λ r. IsTree roles r m) (sym (fun_ext (point-same root t mm.first_table at_t))) v;
  found = λ u va.
      ap (λ r. translate m.mem r va) (point-same root t mm.first_table at_t u) ∙ ground arith;
  pages = omega arith;
}
trap_pages-Trapped (suc pages) {roles} {root} {m} mm t begin end v at_t enough aligned e low =
    let step = set_task_page_notaccessable-flags mm t begin v at_t (omega arith) in
    let mm' : Mm = (set_task_page_notaccessable m mm begin).0 in
    let m' : Machine = (set_task_page_notaccessable m mm begin).1 in
    let next = begin + page_size in
    let rest =
      trap_pages-Trapped pages mm' t next end step.tree (rw (==_refl t)) (omega (arith, step.pages))
        (omega arith) (omega arith) low in
    let out : Mm × Machine = trap_pages pages m' mm' next end in
    let same = point-point root t mm'.first_table out.0.first_table in
    rw (lt→ltb begin end (omega arith)) (record {
      roles' = rest.roles';
      tree = subst (λ r. IsTree rest.roles' r out.1) (fun_ext same) rest.tree;
      found = λ u va.
          ap (λ r. translate out.1.mem r va) (sym (same u))
          ∙ rest.found u va
          ∙ ap (λ d. if (u == t) && is_between next end va then mmio_page_flags else d)
              (step.found u va)
          ∙ split_range t begin end u va mmio_page_flags (translate m.mem (root u) va) aligned
              (omega arith) low;
      pages = omega (arith, step.pages, rest.pages);
    })

-- The role of a page of data, at which the invariant asks nothing of the words.
abbrev end_of_walk : List ℕ
end_of_walk = 0 ∷ 0 ∷ 0 ∷ []

-- With free pages for its tables, `bcm2837_initialize` leaves every address of the devices, from
-- DEVICE_BASE up to the last section of the physical address space, with a valid descriptor of
-- task `t` that allows no access, so that the hypervisor sees each access to a device. The
-- invariant of the tables is kept, no other translation of any task changes, and at most three
-- pages for each page of the devices and one more are taken.
pub bcm2837_initialize-Trapped :
    {roles : Roles} {root : ℕ → ℕ} {m : Machine} (count : ℕ) (tsk : Task) (t : ℕ)
    → IsTree roles root m
    → root t ≡ tsk.mm.first_table
    → 3 * device_pages < free_pages m
    → let (tsk', m') = bcm2837_initialize count m tsk in
      Trapped root m t pbase devices_end (3 * device_pages + 1) (tsk'.mm, m')
unfolding bcm2837_initialize
bcm2837_initialize-Trapped {roles} {root} {m} count tsk t v at_t enough =
    let (k, lt, free, got, pages) = get_free_page-some m v.pool (omega arith) in
    let tree = taken-IsTree v k lt free t end_of_walk in
    let trapped =
      trap_pages-Trapped device_pages tsk.mm t pbase devices_end tree at_t (omega (arith, pages))
        refl refl (omega arith) in
    rw (allocate_page-taken m k got (let pool = v.pool in omega arith)) (record {
      roles' = trapped.roles';
      tree = trapped.tree;
      found = λ u va.
          trapped.found u va
          ∙ ap (λ d. if (u == t) && is_between pbase devices_end va then mmio_page_flags else d)
              (translate-same v (taken-Extends v k lt free t end_of_walk) u va);
      pages = omega (arith, pages, trapped.pages);
    })

-- The rest of the task is as it was.
pub bcm2837_initialize-rest :
    (count : ℕ) (m : Machine) (tsk : Task)
    → let tsk' = (bcm2837_initialize count m tsk).0 in
      tsk' ≡ record tsk { mm = tsk'.mm; board_data = tsk'.board_data }
unfolding bcm2837_initialize
bcm2837_initialize-rest count m tsk = refl
