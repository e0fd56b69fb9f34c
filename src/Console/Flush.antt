-- ===== src/Console/Flush.antt =====
-- What `flush_task_console` prints.
use mathlib.Core.Path.{subst}
use avisor.Prelude.{
  ℕ, zero, suc, ◌+◌, ◌%◌, ◌<◌, ◌≡◌, refl, ap, ◌∙◌, arith, Option, none, some, List, [], ◌∷◌, map,
  length,
}
use avisor.Prelude.Bits.{bit_and_low}
use avisor.Pages.{Machine, allocate_page}
use avisor.Fifo.{Fifo, fifo_size, dequeue_fifo, create_fifo}
use avisor.Fifo.Inv.{IsValid, dequeue_fifo-IsValid, create_fifo-IsValid}
use avisor.Fifo.Queue
use avisor.Fifo.Refine.{
  contents, dequeue_fifo_refines, length-contents, contents-create_fifo, create_fifo-allocate_page,
}
use avisor.Task.{Task}
use avisor.Bcm2837.Aux.Laws.{HasRings}
use avisor.Console.{flush, flush_task_console, init_task_console}

flush_lem :
    (rounds : ℕ) (q : List ℕ) {f : Fifo}
    → IsValid f
    → contents f ≡ q
    → length q < rounds
    → (last : Fifo) × (flush rounds f ≡ some (map (λ v. v % 256) q, last))
      × IsValid last
      × (contents last ≡ [])
unfolding flush Queue.dequeue
flush_lem zero q v e h = absurd (omega arith)
flush_lem (suc rounds) [] {f} v e h =
    let got = dequeue_fifo_refines v ∙ ap Queue.dequeue e in
    ((dequeue_fifo f).1, rw (flush, ap (λ r. r.0) got), dequeue_fifo-IsValid v, ap (λ r. r.1) got)
flush_lem (suc rounds) (x ∷ q) {f} v e h =
    let got = dequeue_fifo_refines v ∙ ap Queue.dequeue e in
    let (last, out, valid, empty) =
      flush_lem rounds q (dequeue_fifo-IsValid v) (ap (λ r. r.1) got) (omega arith) in
    (last, rw (flush, ap (λ r. r.0) got, out, bit_and_low 8 x), valid, empty)

-- `flush_task_console` ends, and prints the low bytes of what the output ring of the VM holds,
-- oldest first; the rings stay well formed, the output is then empty and the input is as before.
pub flush_task_console_lem :
    (tsk : Task)
    → HasRings tsk
    → (after : Task) × (flush_task_console tsk
        ≡ some (map (λ v. v % 256) (contents tsk.console.out_fifo), after))
      × HasRings after
      × (contents after.console.out_fifo ≡ [])
      × (after.console.in_fifo ≡ tsk.console.in_fifo)
unfolding flush_task_console
flush_task_console_lem tsk h =
    let r = h.out_ring in
    let (last, out, valid, empty) =
      flush_lem (fifo_size + 1) (contents tsk.console.out_fifo) h.out_ring refl
        (omega (arith, length-contents tsk.console.out_fifo)) in
    (
      record tsk { console = record (tsk.console) { out_fifo = last } },
      rw (flush_task_console, out),
      record { in_ring = h.in_ring; out_ring = valid },
      empty,
      refl,
    )

-- The console of a new task has two well-formed empty rings.
pub init_task_console_lem :
    (m : Machine) (tsk : Task)
    → let tsk' = (init_task_console m tsk).0 in
      HasRings tsk' × (contents tsk'.console.in_fifo ≡ []) × (contents tsk'.console.out_fifo ≡ [])
unfolding init_task_console
init_task_console_lem m tsk = (
  record { in_ring = create_fifo-IsValid m; out_ring = create_fifo-IsValid (create_fifo m).2 },
  contents-create_fifo m,
  contents-create_fifo (create_fifo m).2,
)

-- The rest of the task is as it was, and the console takes two pages.
pub init_task_console-rest :
    (m : Machine) (tsk : Task)
    → let (tsk', m') = init_task_console m tsk in
      (m' ≡ (allocate_page (allocate_page m).1).1) × (tsk' ≡ record tsk { console = tsk'.console })
unfolding init_task_console
init_task_console-rest m tsk = (
  create_fifo-allocate_page (create_fifo m).2
      ∙ ap (λ x. (allocate_page x).1) (create_fifo-allocate_page m),
  refl,
)

-- The task of a result, and a task that differs from another in its console at most.
abbrev task_of : Task → Option (List ℕ × Task) → Task
task_of tsk none = tsk
task_of tsk (some (chars, after)) = after

-- Nothing but the console of a task changes.
pub flush_task_console-rest :
    (tsk : Task) (chars : List ℕ) (after : Task)
    → flush_task_console tsk ≡ some (chars, after)
    → after ≡ record tsk { console = after.console }
unfolding flush_task_console
flush_task_console-rest tsk chars after e =
    subst (λ o. task_of tsk o ≡ record tsk { console = (task_of tsk o).console }) e
      (go (flush (fifo_size + 1) tsk.console.out_fifo))
  where
    go :
        (o : Option (List ℕ × Fifo))
        → let r = task_of tsk (elim o [
          | none ↦ none
          | some (chars, f) ↦
              some (chars, record tsk { console = record (tsk.console) { out_fifo = f } })
        ]) in
          r ≡ record tsk { console = r.console }
    go none = refl
    go (some (c, f)) = refl
