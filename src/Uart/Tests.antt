-- ===== src/Uart/Tests.antt =====
-- A host with two tasks, the keyboard at the second, and the theorems on keys.
use avisor.Prelude.{ℕ, zero, suc, ◌<◌, ◌≡◌, refl, arith, false, none, some, [], ◌∷◌, replicate}
use avisor.Samples.{vm, machine, vm-HasRings}
use avisor.Task.{Task}
use avisor.Sched.{task_at}
use avisor.Bcm2837.Aux.Laws.{HasRings}
use avisor.Uart.{Host, handle_char}
use avisor.Uart.Keys.{run_keys, IsDelivered, typed-IsDelivered}
use avisor.Uart.Consoles.{Answers, handle_char-Answers}

abbrev host : Host
host = record {
  sys = record { task = some vm ∷ some vm ∷ replicate 62 none; current = 0; nr_tasks = 2 };
  machine = machine;
  uart_forwarded_task = 1;
  is_escaped = false;
  bl_args = record { load_addr = 0; entry_point = 0; sp = 0; filename = replicate 36 0 };
}

host-tasks : (i : ℕ) → i < 2 → (tsk : Task) × (task_at host.sys.task i ≡ some tsk) × HasRings tsk
host-tasks zero h = (vm, refl, vm-HasRings)
host-tasks (suc zero) h = (vm, refl, vm-HasRings)
host-tasks (suc (suc i)) h = absurd (omega arith)

-- `a@b`
typed-IsDelivered_example :
    (h' : Host) × (run_keys host (97 ∷ 64 ∷ 64 ∷ 98 ∷ []) ≡ some (h', []))
    × IsDelivered host vm (97 ∷ 64 ∷ 98 ∷ []) h'
typed-IsDelivered_example =
    typed-IsDelivered host vm (97 ∷ 64 ∷ 98 ∷ []) refl
      (record { place = omega arith; at = refl; running = refl; rings = vm-HasRings })

handle_char-Answers_example : Answers (handle_char host 64)
handle_char-Answers_example =
    handle_char-Answers host 64
      (record { console_in = omega arith; places = omega arith; tasks = host-tasks })
