-- ===== src/Fifo/Tests.antt =====
-- The rings of the tests, and the theorems at them.
use avisor.Prelude.{◌≡◌, refl, true, none, some, [], ◌∷◌, ◌++◌, arith, replicate}
use avisor.Fifo.{Fifo, put, get, clear, accepted, received, run, enqueue_fifo, dequeue_fifo}
use avisor.Fifo.Queue
use avisor.Fifo.Inv.{IsValid}
use avisor.Fifo.Refine.{run_refines, contents}

-- Two values round the end of the storage.
abbrev wrapped : Fifo
wrapped = record { head = 1; tail = 255; used = 2; buf = 8 ∷ replicate 254 0 ++ (7 ∷ []) }

contents-wrapped : contents wrapped ≡ 7 ∷ 8 ∷ []
contents-wrapped = refl

wrapped-IsValid : IsValid wrapped
wrapped-IsValid = omega arith

run_example :
    run wrapped (get ∷ put 9 ∷ get ∷ get ∷ get ∷ [])
    ≡ received (some 7) ∷ accepted true ∷ received (some 8) ∷ received (some 9) ∷ received none ∷ []
unfolding run enqueue_fifo dequeue_fifo
run_example = refl

run_refines_example :
    run wrapped (get ∷ put 9 ∷ clear ∷ get ∷ [])
    ≡ Queue.run (7 ∷ 8 ∷ []) (get ∷ put 9 ∷ clear ∷ get ∷ [])
run_refines_example = run_refines (get ∷ put 9 ∷ clear ∷ get ∷ []) wrapped-IsValid
