-- ===== src/Fifo/Inv.antt =====
-- The representation invariant of `struct fifo`.
use avisor.Prelude.{zero, suc, refl, ap, ℕ, ◌+◌, ◌%◌, ◌≤◌, ◌<◌, ◌≡◌, arith, length, length-set}
use avisor.Pages.{Machine, allocate_page}
use avisor.Fifo.{
  words, Fifo, fifo_size, next_index, create_fifo, clear_fifo, enqueue_fifo, dequeue_fifo,
}

pub record IsValid (f : Fifo) : Type 0 where
  pub storage : fifo_size ≤ length f.buf
  pub head_in : f.head < fifo_size
  pub tail_in : f.tail < fifo_size
  pub used_in : f.used ≤ fifo_size
  pub distance : f.head ≡ (f.tail + f.used) % fifo_size

pub next_index-mod : (i : ℕ) → i < fifo_size → next_index i ≡ (i + 1) % fifo_size
unfolding next_index
next_index-mod i h = ground arith

length-words : (mem : ℕ → ℕ) (a n : ℕ) → length (words mem a n) ≡ n
unfolding words
length-words mem a zero = refl
length-words mem a (suc n) = ap suc (length-words mem (a + 8) n)

pub create_fifo-IsValid : (m : Machine) → IsValid (create_fifo m).1
unfolding create_fifo
create_fifo-IsValid m =
    omega (arith, length-words (allocate_page m).1.mem ((allocate_page m).0 + 16) fifo_size)

pub clear_fifo-IsValid : {f : Fifo} → IsValid f → IsValid (clear_fifo f)
unfolding clear_fifo
clear_fifo-IsValid v = ground arith

pub enqueue_fifo-IsValid : {f : Fifo} (val : ℕ) → IsValid f → IsValid (enqueue_fifo f val).1
unfolding enqueue_fifo
enqueue_fifo-IsValid {f} val v =
    ground (arith, length-set f.buf f.head val, next_index-mod f.head v.head_in)

pub dequeue_fifo-IsValid : {f : Fifo} → IsValid f → IsValid (dequeue_fifo f).1
unfolding dequeue_fifo
dequeue_fifo-IsValid {f} v = ground (arith, next_index-mod f.tail v.tail_in)
