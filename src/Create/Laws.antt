-- ===== src/Create/Laws.antt =====
-- The task that `create_task` adds.
use avisor.Prelude.{
  if_false, false, none, ◌≤◌, ℕ, ◌+◌, ◌*◌, ◌<◌, ◌≡◌, ◌≢◌, refl, sym, ap, ◌∙◌, Option, none, some,
  List, [], ◌∷◌, ◌==◌, ◌&&◌, if◌then◌else◌, arith, length, set, get_or-set_self, get_or-set_ne,
  ==_of_ne,
}
use mathlib.Core.Path.{subst}
use avisor.Pages.{Machine, allocate_page}
use avisor.Pages.Alloc.{page_addr, taken}
use avisor.Pages.Count.{free_pages, get_free_page-some, allocate_page-taken}
use avisor.Stage2.{mmio_page_flags}
use avisor.Stage2.Tree.{table, assign, Roles, IsTree, translate}
use avisor.Stage2.Tree.Grow.{taken-IsTree}
use avisor.Stage2.Tree.Step.{taken-Extends}
use avisor.Stage2.Map.{point, translate-same}
use avisor.Board.{pbase}
use avisor.Task.{Task, Sysreg, running}
use avisor.Sched.{System, task_at}
use avisor.Bcm2837.Init.{bcm2837_initialize, device_pages, devices_end}
use avisor.Bcm2837.Init.Laws.{is_between, bcm2837_initialize-Trapped, bcm2837_initialize-rest}
use avisor.Bcm2837.Aux.Laws.{HasRings}
use avisor.Fifo.Refine.{contents}
use avisor.Console.{init_task_console}
use avisor.Console.Flush.{init_task_console_lem, init_task_console-rest}
use avisor.Create.{current_priority, new_task, prepare_initial_sysregs, create_task}

-- A machine that has the tables of an earlier one.
pub record Kept (root : ℕ → ℕ) (m m' : Machine) : Type 0 where
  pub roles' : Roles
  pub tree : IsTree roles' root m'
  pub same : (u va : ℕ) → translate m'.mem (root u) va ≡ translate m.mem (root u) va

-- The role of a page of data.
abbrev end_of_walk : List ℕ
end_of_walk = 0 ∷ 0 ∷ 0 ∷ []

-- A page of data leaves the tables.
allocate_page-Kept :
    {roles : Roles} {root : ℕ → ℕ} {m : Machine}
    → IsTree roles root m
    → 0 < free_pages m
    → Kept root m (allocate_page m).1 × (free_pages m ≤ free_pages (allocate_page m).1 + 1)
allocate_page-Kept {roles} {root} {m} v some_free =
    let (k, lt, free, got, pages) = get_free_page-some m v.pool some_free in
    subst (λ m'. Kept root m m' × (free_pages m ≤ free_pages m' + 1))
      (sym (ap (λ r. r.1) (allocate_page-taken m k got (let pool = v.pool in omega arith))))
      (
        record {
          roles' = assign roles (page_addr m.pool k) (table 0 end_of_walk);
          tree = taken-IsTree v k lt free 0 end_of_walk;
          same = translate-same v (taken-Extends v k lt free 0 end_of_walk);
        },
        omega (arith, pages),
      )

Kept-trans :
    {root : ℕ → ℕ} {m m' m'' : Machine} → Kept root m m' → Kept root m' m'' → Kept root m m''
Kept-trans k l = record {
  roles' = l.roles';
  tree = l.tree;
  same = λ u va. l.same u va ∙ k.same u va;
}

-- What `create_task` adds to the tasks and the tables: the new task runs, with the priority of the
-- current one as its time, empty rings, and a trap at every address of a device.
pub record Created (root : ℕ → ℕ) (m : Machine) (sys : System) (out : Option ℕ × Machine × System)
    : Type 0 where
  pub tsk : Task
  pub pid : out.0 ≡ some sys.nr_tasks
  pub counted : out.2.nr_tasks ≡ sys.nr_tasks + 1
  pub at : task_at out.2.task sys.nr_tasks ≡ some tsk
  pub others : (i : ℕ) → i ≢ sys.nr_tasks → task_at out.2.task i ≡ task_at sys.task i
  pub runs : tsk.state ≡ running
  pub same_pid : tsk.pid ≡ sys.nr_tasks
  pub time : (tsk.counter ≡ current_priority sys) × (tsk.priority ≡ current_priority sys)
  pub rings : HasRings tsk
  pub empty : (contents tsk.console.in_fifo ≡ []) × (contents tsk.console.out_fifo ≡ [])
  pub roles' : Roles
  pub tree : IsTree roles' (point root sys.nr_tasks tsk.mm.first_table) out.1
  pub found :
      (u va : ℕ)
      → translate out.1.mem (point root sys.nr_tasks tsk.mm.first_table u) va ≡ (
          if (u == sys.nr_tasks) && is_between pbase devices_end va
          then mmio_page_flags
          else translate m.mem (root u) va)

module _ (sysregs : Sysreg → ℕ) (count : ℕ) (sys : System) (m₁ : Machine) where
  -- The task before its console, and with it.
  abbrev ready : Task
  ready = (bcm2837_initialize count m₁ (new_task sys)).0

  abbrev named : Task
  named = record ready { cpu_sysregs = prepare_initial_sysregs sysregs; pid = sys.nr_tasks }

  abbrev booted : Machine
  booted = (bcm2837_initialize count m₁ (new_task sys)).1

  abbrev last : Task × Machine
  last = init_task_console booted named

  rest : last.0 ≡ record named { console = last.0.console }
  rest = (init_task_console-rest booted named).1

  start : ready ≡ record (new_task sys) { mm = ready.mm; board_data = ready.board_data }
  start = bcm2837_initialize-rest count m₁ (new_task sys)

  -- The tables after the console.
  consoles-Kept :
      {roles : Roles} {root : ℕ → ℕ}
      → IsTree roles root booted
      → 1 < free_pages booted
      → Kept root booted last.1
  consoles-Kept {roles} {root} v enough =
      let (one, pages) = allocate_page-Kept v (omega arith) in
      let (two, _) = allocate_page-Kept one.tree (omega (arith, pages)) in
      subst (Kept root booted) (sym (init_task_console-rest booted named).0) (Kept-trans one two)

  created :
      (page : ℕ) (m : Machine)
      → allocate_page m ≡ (page, m₁)
      → page ≢ 0
      → booted.pool.panicked ≡ false
      → last.1.pool.panicked ≡ false
      → create_task sysregs count m sys ≡ (
        some sys.nr_tasks,
        last.1,
        record sys { nr_tasks = sys.nr_tasks + 1; task = set sys.task sys.nr_tasks (some last.0) },
      )
  unfolding create_task
  created page m e ne alive alive' =
      rw (e, ==_of_ne page 0 ne)
        (if_false _ _ _ alive
          ∙ ap
              (λ o. (
                o,
                last.1,
                record sys {
                  nr_tasks = sys.nr_tasks + 1;
                  task = set sys.task sys.nr_tasks (some last.0);
                },
              ))
              (if_false _ none (some sys.nr_tasks) alive'))

-- With a free place below NR_TASKS and free pages for its tables and rings, `create_task` returns the next
-- number as the `pid`. The new task runs, with the priority of the current one as priority and
-- time, and with well-formed empty rings; each address of a device has a descriptor of the new
-- task without access. The other tasks stay as they were, the tables' invariant is kept, and every
-- other translation of every task is as before.
pub create_task-Created :
    {roles : Roles} {root : ℕ → ℕ} {m : Machine} (sysregs : Sysreg → ℕ) (count : ℕ) (sys : System)
    → IsTree roles root m
    → root sys.nr_tasks ≡ 0
    → 3 * device_pages + 3 < free_pages m
    → sys.nr_tasks < length sys.task
    → Created root m sys (create_task sysregs count m sys)
create_task-Created {roles} {root} {m} sysregs count sys v no_table enough place =
    let nr = sys.nr_tasks in
    let (k, lt, free, got, pages) = get_free_page-some m v.pool (omega arith) in
    let positive : 0 < page_addr m.pool k = (let pool = v.pool in omega arith) in
    let m₁ = taken m k in
    let v₁ = taken-IsTree v k lt free nr end_of_walk in
    let trapped =
      bcm2837_initialize-Trapped count (new_task sys) nr v₁ no_table (omega (arith, pages)) in
    let kept =
      consoles-Kept sysregs count sys m₁ trapped.tree (omega (arith, pages, trapped.pages)) in
    let p = (last sysregs count sys m₁).0 in
    let same_rest = rest sysregs count sys m₁ in
    let same_start = start sysregs count sys m₁ in
    let same_mm : p.mm ≡ (ready sysregs count sys m₁).mm = ap (λ t. t.mm) same_rest in
    let (rings, empty_in, empty_out) =
      init_task_console_lem (booted sysregs count sys m₁) (named sysregs count sys m₁) in
    let whole =
      created sysregs count sys m₁ (page_addr m.pool k) m (allocate_page-taken m k got positive)
        (λ z. omega (arith, z)) trapped.tree.pool.alive kept.tree.pool.alive in
    subst (Created root m sys) (sym whole) (record {
      tsk = p;
      pid = refl;
      counted = refl;
      at = get_or-set_self sys.task nr (some p) none place;
      others = λ i ne. get_or-set_ne sys.task nr i (some p) none (λ e. ne (sym e));
      runs = ap (λ t. t.state) same_rest ∙ ap (λ t. t.state) same_start;
      same_pid = ap (λ t. t.pid) same_rest;
      time = (
        ap (λ t. t.counter) same_rest ∙ ap (λ t. t.counter) same_start,
        ap (λ t. t.priority) same_rest ∙ ap (λ t. t.priority) same_start,
      );
      rings = rings;
      empty = (empty_in, empty_out);
      roles' = kept.roles';
      tree =
          subst
            (λ mm. IsTree kept.roles' (point root nr mm.first_table) (last sysregs count sys m₁).1)
            (sym same_mm) kept.tree;
      found = λ u va.
          ap (λ mm. translate (last sysregs count sys m₁).1.mem (point root nr mm.first_table u) va)
            same_mm
          ∙ kept.same u va
          ∙ trapped.found u va
          ∙ ap (λ d. if (u == nr) && is_between pbase devices_end va then mmio_page_flags else d)
              (translate-same v (taken-Extends v k lt free nr end_of_walk) u va);
    })
