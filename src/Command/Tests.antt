-- ===== src/Command/Tests.antt =====
-- `vmc 1` on a host with two tasks.
use avisor.Prelude.{
  ℕ, zero, suc, ◌<◌, ◌≡◌, refl, arith, false, none, some, List, [], ◌∷◌, replicate,
}
use avisor.Samples.{vm, machine, vm-HasRings}
use avisor.Task.{Task}
use avisor.Sched.{task_at}
use avisor.Bcm2837.Aux.Laws.{HasRings}
use avisor.Uart.{Host}

abbrev host : Host
host = record {
  sys = record { task = some vm ∷ some vm ∷ replicate 62 none; current = 0; nr_tasks = 2 };
  machine = machine;
  uart_forwarded_task = 0;
  is_escaped = false;
  bl_args = record { load_addr = 0; entry_point = 0; sp = 0; filename = replicate 36 0 };
}

host-tasks : (i : ℕ) → i < 2 → (tsk : Task) × (task_at host.sys.task i ≡ some tsk) × HasRings tsk
host-tasks zero h = (vm, refl, vm-HasRings)
host-tasks (suc zero) h = (vm, refl, vm-HasRings)
host-tasks (suc (suc i)) h = absurd (omega arith)

abbrev vmc_1 : List (List ℕ)
vmc_1 = (118 ∷ 109 ∷ 99 ∷ []) ∷ (49 ∷ []) ∷ []
