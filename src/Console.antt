-- ===== src/Console.antt =====
-- hypervisor/arch/aarch64/task.c: the console of a VM.
pub mod Flush
mod Tests
use Prim.Native.Nat.{bit_and}
use avisor.Prelude.{ℕ, zero, suc, ◌+◌, ◌*◌, Option, none, some, List, [], ◌∷◌}
use avisor.Fifo.{Fifo, fifo_size, create_fifo, dequeue_fifo}
use avisor.Pages.{Machine}
use avisor.Task.{Task, Console}

-- The characters that a loop prints, and the ring it leaves; `none` when it has not ended after
-- that many rounds.
pub flush : (rounds : ℕ) → Fifo → Option (List ℕ × Fifo)
flush zero outfifo = none
flush (suc rounds) outfifo =
    let (val, next) = dequeue_fifo outfifo in
    let rest = flush rounds next in
    elim val [
      | none ↦ some ([], next)
      | some v ↦ elim rest [
        | none ↦ none
        | some (chars, last) ↦ some (bit_and v 0xff ∷ chars, last)
      ]
    ]

-- The rounds are one more than a ring has places.
pub flush_task_console : Task → Option (List ℕ × Task)
unfolding flush
flush_task_console tsk = elim (flush (fifo_size + 1) tsk.console.out_fifo) [
  | none ↦ none
  | some (chars, f) ↦ some (chars, record tsk { console = record (tsk.console) { out_fifo = f } })
]

-- The rings are kept beside the pages that hold them.
pub init_task_console : Machine → Task → Task × Machine
init_task_console m tsk =
    let (in_page, in_fifo, m₁) = create_fifo m in
    let (out_page, out_fifo, m₂) = create_fifo m₁ in
    (record tsk { console = record { in_fifo = in_fifo; out_fifo = out_fifo } }, m₂)
