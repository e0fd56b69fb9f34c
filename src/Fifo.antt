-- ===== src/Fifo.antt =====
-- hypervisor/common/fifo.c: the ring of characters behind a VM's console. A function that updates
-- `*fifo` returns the new ring beside its result.
pub mod Inv
pub mod Queue
pub mod Refine
mod Tests
use avisor.Prelude.{
  ℕ, zero, suc, ◌+◌, ◌-◌, ◌%◌, ◌^◌, Bool, true, false, Option, none, some, List, [], ◌∷◌, ◌==◌,
  if◌then◌else◌, get_or, set,
}
use avisor.Pages.{Machine, allocate_page}

-- FIFO_SIZE
abbrev pub fifo_size : ℕ
fifo_size = 256

-- `struct fifo`; the three counters are `unsigned int`.
pub record Fifo : Type 0 where
  pub head : ℕ
  pub tail : ℕ
  pub used : ℕ
  pub buf : List ℕ

-- NEXT_INDEX, with the wrap of `unsigned int`
pub next_index : ℕ → ℕ
next_index i = if (i + 1) % 2 ^ 32 == fifo_size then 0 else (i + 1) % 2 ^ 32

unfoldable pub is_empty_fifo : Fifo → Bool
is_empty_fifo fifo = fifo.used == 0

unfoldable pub is_full_fifo : Fifo → Bool
is_full_fifo fifo = fifo.used == fifo_size

-- `n` words of memory from address `a` on.
words : (ℕ → ℕ) → ℕ → ℕ → List ℕ
words mem a zero = []
words mem a (suc n) = mem a ∷ words mem (a + 8) n

-- The ring lies in a page of its own, `buf` behind the counters and four bytes of padding. The
-- first part is its address; the code does not test it for 0.
pub create_fifo : Machine → ℕ × Fifo × Machine
unfolding words
create_fifo m =
    let (page, m') = allocate_page m in
    (page, record { head = 0; tail = 0; used = 0; buf = words m'.mem (page + 16) fifo_size }, m')

pub clear_fifo : Fifo → Fifo
clear_fifo fifo = record fifo { head = 0; tail = 0; used = 0 }

-- The first part is the C result: `true` for 0, `false` for -1.
pub enqueue_fifo : Fifo → ℕ → Bool × Fifo
unfolding is_full_fifo next_index
enqueue_fifo fifo val = if is_full_fifo fifo then (false, fifo) else (
  true,
  record fifo {
    buf = set fifo.buf fifo.head val;
    head = next_index fifo.head;
    used = (fifo.used + 1) % 2 ^ 32;
  },
)

-- `none` is the C result -1; `some v` is 0 with `v` stored through `val`.
pub dequeue_fifo : Fifo → Option ℕ × Fifo
unfolding is_empty_fifo next_index
dequeue_fifo fifo = if is_empty_fifo fifo then (none, fifo) else (
  some (get_or fifo.buf fifo.tail 0),
  record fifo { tail = next_index fifo.tail; used = (fifo.used + 2 ^ 32 - 1) % 2 ^ 32 },
)

unfoldable pub used_of_fifo : Fifo → ℕ
used_of_fifo fifo = fifo.used

-- What a client can do with a ring, and what it sees of each call.
pub data Op : Type 0 where
  put : ℕ → Op
  get clear : Op

pub data Reply : Type 0 where
  accepted : Bool → Reply
  received : Option ℕ → Reply
  done : Reply

pub run : Fifo → List Op → List Reply
run fifo [] = []
run fifo (put val ∷ ops) = let (fits, next) = enqueue_fifo fifo val in accepted fits ∷ run next ops
run fifo (get ∷ ops) = let (out, next) = dequeue_fifo fifo in received out ∷ run next ops
run fifo (clear ∷ ops) = done ∷ run (clear_fifo fifo) ops
