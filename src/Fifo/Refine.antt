-- ===== src/Fifo/Refine.antt =====
-- A valid ring is a bounded queue: what its clients see of any sequence of calls.
use avisor.Prelude.{
  ℕ, zero, suc, ◌+◌, ◌-◌, ◌%◌, ◌≤◌, ◌<◌, ◌≡◌, ◌≢◌, refl, ap, ◌∙◌, List, [], ◌∷◌, ◌++◌, arith,
  length, get_or, set, get_or-set_self, get_or-set_ne,
}
use avisor.Pages.{Machine, allocate_page}
use avisor.Fifo.{
  create_fifo, Fifo, fifo_size, Op, put, get, clear, enqueue_fifo, dequeue_fifo, clear_fifo, run,
}
use avisor.Fifo.Queue
use avisor.Fifo.Inv.{
  IsValid, next_index-mod, enqueue_fifo-IsValid, dequeue_fifo-IsValid, clear_fifo-IsValid,
}

-- The `n` characters that are read from slot `i` on.
abbrev pub slots : List ℕ → ℕ → ℕ → List ℕ
slots buf i zero = []
slots buf i (suc n) = get_or buf i 0 ∷ slots buf ((i + 1) % fifo_size) n

abbrev pub contents : Fifo → List ℕ
contents f = slots f.buf f.tail f.used

length-slots : (buf : List ℕ) (i n : ℕ) → length (slots buf i n) ≡ n
length-slots buf i zero = refl
length-slots buf i (suc n) = ap suc (length-slots buf ((i + 1) % fifo_size) n)

pub length-contents : (f : Fifo) → length (contents f) ≡ f.used
length-contents f = length-slots f.buf f.tail f.used

pub contents-create_fifo : (m : Machine) → contents (create_fifo m).1 ≡ []
unfolding create_fifo
contents-create_fifo m = refl

slots_of_ne_zero :
    (buf : List ℕ) (i n : ℕ)
    → n ≢ 0
    → slots buf i n ≡ get_or buf i 0 ∷ slots buf ((i + 1) % fifo_size) (n - 1)
slots_of_ne_zero buf i zero h = absurd (h refl)
slots_of_ne_zero buf i (suc n) h = ap (λ k. slots buf i (suc k)) (omega arith)

-- A write to the first free slot adds its value at the end.
slots-set :
    (buf : List ℕ) (x n i j : ℕ)
    → fifo_size ≤ length buf
    → i < fifo_size
    → n < fifo_size
    → j ≡ (i + n) % fifo_size
    → slots (set buf j x) i (suc n) ≡ slots buf i n ++ (x ∷ [])
slots-set buf x zero i j s p q e =
    let here : j ≡ i = omega arith in
    ap (λ k. get_or (set buf k x) i 0 ∷ []) here
    ∙ ap (λ v. v ∷ []) (get_or-set_self buf i x 0 (omega arith))
slots-set buf x (suc n) i j s p q e = ground (
  arith,
  get_or-set_ne buf j i x 0 (omega arith),
  slots-set buf x n ((i + 1) % fifo_size) j s (omega arith) (omega arith) (omega arith),
)

pub enqueue_fifo_refines :
    {f : Fifo} (val : ℕ)
    → IsValid f
    → let (fits, next) = enqueue_fifo f val in
      (fits, contents next) ≡ Queue.enqueue (contents f) val
unfolding enqueue_fifo Queue.enqueue
enqueue_fifo_refines {f} val v = ground (
  arith,
  length-slots f.buf f.tail f.used,
  slots-set f.buf val f.used f.tail f.head v.storage v.tail_in,
)

pub dequeue_fifo_refines :
    {f : Fifo}
    → IsValid f
    → let (out, next) = dequeue_fifo f in (out, contents next) ≡ Queue.dequeue (contents f)
unfolding dequeue_fifo Queue.dequeue
dequeue_fifo_refines {f} v =
    ground (arith, next_index-mod f.tail v.tail_in, slots_of_ne_zero f.buf f.tail f.used)

-- From any valid ring, every sequence of `enqueue_fifo`, `dequeue_fifo` and `clear_fifo` calls gives
-- the replies of the queue of at most 256 values that holds what the ring holds.
pub run_refines : (ops : List Op) {f : Fifo} → IsValid f → run f ops ≡ Queue.run (contents f) ops
unfolding run clear_fifo Queue.run
run_refines [] v = refl
run_refines (put x ∷ ops) {f} v =
    ground (arith, run_refines ops (enqueue_fifo-IsValid x v), enqueue_fifo_refines x v)
run_refines (get ∷ ops) {f} v =
    ground (arith, run_refines ops (dequeue_fifo-IsValid v), dequeue_fifo_refines v)
run_refines (clear ∷ ops) {f} v = ground (arith, run_refines ops (clear_fifo-IsValid v))

-- A ring takes one page.
pub create_fifo-allocate_page : (m : Machine) → (create_fifo m).2 ≡ (allocate_page m).1
unfolding create_fifo
create_fifo-allocate_page m = refl
