-- ===== src/Stage2/Alloc.antt =====
-- `allocate_task_page` and `set_task_page_notaccessable`: the two ways in which the handlers of
-- this hypervisor map a page for a VM.
use avisor.Prelude.{
  ℕ, ◌+◌, ◌%◌, ◌/◌, ◌≤◌, ◌<◌, ◌^◌, ◌≡◌, refl, ap, ◌∙◌, List, [], ◌∷◌, if◌then◌else◌, arith,
  ==_of_ne, ==_refl,
}
use avisor.Pages.{Machine}
use avisor.Pages.Alloc.{IsFree, page_addr}
use avisor.Pages.Count.{free_pages, get_free_page-some}
use avisor.Stage2.{Mm, page_flags, mmio_page_flags, allocate_task_page, set_task_page_notaccessable}
use avisor.Stage2.Tree.{Roles, IsTree, translate}
use avisor.Stage2.Tree.Lookup.{table_addr}
use avisor.Stage2.Tree.Grow.{taken-IsTree}
use avisor.Stage2.Tree.Step.{taken-Extends}
use avisor.Stage2.Map.{point, is_page, Mapped, map_stage2_page-Mapped, translate-same}

-- What `allocate_task_page` promises: its result is the address of a page that was free, which is
-- now found at the page of `va`; the invariant holds, and all else is translated as before.
pub record Allocated (root : ℕ → ℕ) (m : Machine) (t va : ℕ) (out : ℕ × Mm × Machine) : Type 0 where
  pub index : ℕ
  pub within : index < m.pool.page_nr
  pub was_free : IsFree m.pool index
  pub page : out.0 ≡ page_addr m.pool index
  pub roles' : Roles
  pub tree : IsTree roles' (point root t out.1.first_table) out.2
  pub found :
      (u va' : ℕ)
      → translate out.2.mem (point root t out.1.first_table u) va'
        ≡ (if is_page t va u va' then out.0 + page_flags else translate m.mem (root u) va')
  pub pages : free_pages m ≤ free_pages out.2 + 4

-- A page of data stands at the end of a full walk, where the invariant asks nothing of its words.
abbrev end_of_walk : List ℕ
end_of_walk = 0 ∷ 0 ∷ 0 ∷ []

-- With four free pages, `allocate_task_page` succeeds: it returns a page that was free, task `t`
-- finds that page, with MMU_STAGE2_PAGE_FLAGS, at the page of `va`, and every task finds what it
-- found before at every other page. The invariant of all tables is kept, and at most three more
-- pages are taken.
pub allocate_task_page-Allocated :
    {roles : Roles} {root : ℕ → ℕ} {m : Machine} (mm : Mm) (t va : ℕ)
    → IsTree roles root m
    → root t ≡ mm.first_table
    → 3 < free_pages m
    → Allocated root m t va (allocate_task_page m mm va)
unfolding allocate_task_page
allocate_task_page-Allocated {roles} {root} {m} mm t va v at_t enough =
    let (k, lt, free, got, count) = get_free_page-some m v.pool (omega arith) in
    let q : ℕ = page_addr m.pool k in
    let tree = taken-IsTree v k lt free t end_of_walk in
    let (aligned, low, positive) = table_addr tree q t end_of_walk (rw (==_refl q)) in
    let mapped =
      map_stage2_page-Mapped mm t va q page_flags tree at_t (omega (arith, count)) aligned
        (omega arith) in
    rw (got, ==_of_ne q 0 (λ z. omega arith))
      (record {
        index = k;
        within = lt;
        was_free = free;
        page = refl;
        roles' = mapped.roles';
        tree = mapped.tree;
        found = λ u va'.
            mapped.found u va'
            ∙ ap (λ e. if is_page t va u va' then q + page_flags else e)
                (translate-same v (taken-Extends v k lt free t end_of_walk) u va');
        pages = omega (arith, count, mapped.pages);
      })

pub set_task_page_notaccessable-flags :
    {roles : Roles} {root : ℕ → ℕ} {m : Machine} (mm : Mm) (t va : ℕ)
    → IsTree roles root m
    → root t ≡ mm.first_table
    → 2 < free_pages m
    → Mapped root m t va mmio_page_flags (set_task_page_notaccessable m mm va)
unfolding set_task_page_notaccessable
set_task_page_notaccessable-flags mm t va v at_t enough =
    map_stage2_page-Mapped mm t va 0 mmio_page_flags v at_t enough refl (omega arith)

-- With three free pages, `set_task_page_notaccessable` leaves the VM of task `t`, at the page of
-- `va`, a valid descriptor whose access bits allow neither reads nor writes, so that every access
-- there reaches the hypervisor. The invariant of the tables is kept, and every task finds what it
-- found before at every other page.
pub set_task_page_notaccessable-Mapped :
    {roles : Roles} {root : ℕ → ℕ} {m : Machine} (mm : Mm) (t va : ℕ)
    → IsTree roles root m
    → root t ≡ mm.first_table
    → 2 < free_pages m
    → (d : ℕ) × (d % 4 ≡ 3)
      × (d / 2 ^ 6 % 4 ≡ 0)
      × Mapped root m t va d (set_task_page_notaccessable m mm va)
set_task_page_notaccessable-Mapped mm t va v at_t enough =
    (mmio_page_flags, refl, refl, set_task_page_notaccessable-flags mm t va v at_t enough)
