-- ===== src/Create/Tests.antt =====
-- The first VM of a board, and the theorem at it.
use avisor.Prelude.{refl, arith, none, some, ◌∷◌, replicate}
use avisor.Samples.{vm}
use avisor.Pages.{Machine, rasp3b_page_pool}
use avisor.Pages.Count.{rasp3b_page_pool-IsPool}
use avisor.Stage2.Tree.{other, Roles, IsTree}
use avisor.Sched.{System}
use avisor.Create.{create_task}
use avisor.Create.Laws.{Created, create_task-Created}

abbrev board : Machine
board = record { pool = rasp3b_page_pool; mem = λ a. 0 }

abbrev no_roles : Roles
no_roles p = other

board-IsTree : IsTree no_roles (λ t. 0) board
board-IsTree = record {
  pool = rasp3b_page_pool-IsPool.0;
  owned = λ p t path r. cc r;
  rooted = λ t h. absurd (h refl);
  entries = λ p t path i r short lt. cc r;
}

-- Task 0 is the hypervisor's own.
abbrev sys : System
sys = record { task = some vm ∷ replicate 63 none; current = 0; nr_tasks = 1 }

create_task-Created_example : Created (λ t. 0) board sys (create_task (λ r. 5) 1000 board sys)
create_task-Created_example =
    create_task-Created (λ r. 5) 1000 sys board-IsTree refl
      (omega (arith, rasp3b_page_pool-IsPool.1)) (omega arith)
