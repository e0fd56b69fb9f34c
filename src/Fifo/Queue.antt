-- ===== src/Fifo/Queue.antt =====
-- What the clients of the ring rely on: a first-in first-out queue of at most `fifo_size` values.
use avisor.Prelude.{
  ℕ, Bool, true, false, Option, none, some, List, [], ◌∷◌, ◌++◌, ◌==◌, if◌then◌else◌, length,
}
use avisor.Fifo.{fifo_size, Op, put, get, clear, Reply, accepted, received, done}

-- Oldest first.
unfoldable pub enqueue : List ℕ → ℕ → Bool × List ℕ
enqueue q x = if length q == fifo_size then (false, q) else (true, q ++ (x ∷ []))

unfoldable pub dequeue : List ℕ → Option ℕ × List ℕ
dequeue [] = (none, [])
dequeue (x ∷ q) = (some x, q)

unfoldable pub run : List ℕ → List Op → List Reply
run q [] = []
run q (put x ∷ ops) = let (fits, q') = enqueue q x in accepted fits ∷ run q' ops
run q (get ∷ ops) = let (out, q') = dequeue q in received out ∷ run q' ops
run q (clear ∷ ops) = done ∷ run [] ops
