-- ===== src/Bcm2837/Aux/Laws.antt =====
-- The mini UART as the VM uses it: the data register is the queues of the console, and no access
-- breaks a ring.
use Prim.Native.Nat.{bit_and}
use avisor.Prelude.{
  ℕ, ◌%◌, ◌≡◌, refl, ap, ◌∙◌, arith, Bool, true, false, not, ◌&&◌, none, some, ◌==◌, if◌then◌else◌,
  int_of, ==_of_ne,
}
use avisor.Prelude.Bits.{complement, bit_and_low}
use avisor.Fifo.{clear_fifo}
use avisor.Fifo.Inv.{IsValid, dequeue_fifo-IsValid, enqueue_fifo-IsValid, clear_fifo-IsValid}
use avisor.Fifo.Queue
use avisor.Fifo.Refine.{contents, enqueue_fifo_refines, dequeue_fifo_refines}
use avisor.Task.{Task}
use avisor.Board.{
  aux_irq, aux_mu_lsr_reg, aux_mu_msr_reg, aux_mu_stat_reg, Aux, aux_enables, aux_mu_io_reg,
  aux_mu_ier_reg, aux_mu_lcr_reg, aux_mu_iir_reg, aux_mu_mcr_reg, aux_mu_scratch, aux_mu_cntl_reg,
  aux_mu_baud_reg,
}
use avisor.Bcm2837.Aux.{
  read_aux_irq, with_aux, with_in, with_out, is_set, is_off, latched, handle_aux_read,
  handle_aux_write, write_io, write_ier, write_iir, read_io,
}

-- Both rings of the console are well formed.
pub record HasRings (tsk : Task) : Type 0 where
  pub in_ring : IsValid tsk.console.in_fifo
  pub out_ring : IsValid tsk.console.out_fifo

-- A property of both branches is one of the test.
branch : (b : Bool) {t e : Task} → HasRings t → HasRings e → HasRings (if b then t else e)
branch true p q = p
branch false p q = q

clears :
    {tsk : Task} (b : Bool)
    → HasRings tsk
    → let cleared : Task = if b then with_in tsk (clear_fifo tsk.console.in_fifo) else tsk in
      HasRings cleared × HasRings (with_out cleared (clear_fifo tsk.console.out_fifo))
clears true h = (
  record { in_ring = clear_fifo-IsValid h.in_ring; out_ring = h.out_ring },
  record { in_ring = clear_fifo-IsValid h.in_ring; out_ring = clear_fifo-IsValid h.out_ring },
)
clears false h = (h, record { in_ring = h.in_ring; out_ring = clear_fifo-IsValid h.out_ring })

same_rings : {tsk : Task} (a : Aux) → HasRings tsk → HasRings (with_aux tsk a)
same_rings a h = record { in_ring = h.in_ring; out_ring = h.out_ring }

write_io-HasRings : {tsk : Task} (val : ℕ) → HasRings tsk → HasRings (write_io tsk val)
unfolding write_io
write_io-HasRings {tsk} val h =
    branch (latched tsk) (same_rings _ h) (record {
      in_ring = h.in_ring;
      out_ring = enqueue_fifo-IsValid (bit_and val 0xff) h.out_ring;
    })

write_ier-HasRings : {tsk : Task} (val : ℕ) → HasRings tsk → HasRings (write_ier tsk val)
unfolding write_ier
write_ier-HasRings {tsk} val h = branch (latched tsk) (same_rings _ h) (same_rings _ h)

write_iir-HasRings : {tsk : Task} (val : ℕ) → HasRings tsk → HasRings (write_iir tsk val)
unfolding write_iir
write_iir-HasRings {tsk} val h =
    let (cleared, both) = clears (is_set val 0x2) h in branch (is_set val 0x4) both cleared

-- No write of the VM to the mini UART, to whichever register, breaks a ring of its console.
handle_aux_write-HasRings :
    {tsk : Task} (addr val : ℕ) → HasRings tsk → HasRings (handle_aux_write tsk addr val)
unfolding handle_aux_write
handle_aux_write-HasRings {tsk} addr val h = branch (is_off tsk addr) h (
    branch (addr == aux_enables) (same_rings _ h) (
      branch (addr == aux_mu_io_reg) (write_io-HasRings val h) (
        branch (addr == aux_mu_ier_reg) (write_ier-HasRings val h) (
          branch (addr == aux_mu_iir_reg) (write_iir-HasRings val h) (
            branch (addr == aux_mu_lcr_reg) (same_rings _ h) (
              branch (addr == aux_mu_mcr_reg) (same_rings _ h) (
                branch (addr == aux_mu_scratch) (same_rings _ h) (
                  branch (addr == aux_mu_cntl_reg) (same_rings _ h)
                    (branch (addr == aux_mu_baud_reg) (same_rings _ h) h)))))))))

-- The outcome of a read that leaves both rings well formed.
record Kept (r : ℕ × Task) : Type 0 where
  rings : HasRings r.1

read_branch : (b : Bool) {r e : ℕ × Task} → Kept r → Kept e → Kept (if b then r else e)
read_branch true p q = p
read_branch false p q = q

same : {tsk : Task} (v : ℕ) → HasRings tsk → Kept (v, tsk)
same v h = record { rings = h }

read_io-Kept : {tsk : Task} (garbage : ℕ) → HasRings tsk → Kept (read_io garbage tsk)
unfolding read_io
read_io-Kept {tsk} garbage h =
    read_branch (latched tsk) (same _ (same_rings _ h)) (record {
      rings = record { in_ring = dequeue_fifo-IsValid h.in_ring; out_ring = h.out_ring };
    })

-- No read of the VM from the mini UART, of whichever register, breaks a ring of its console.
handle_aux_read-HasRings :
    {tsk : Task} (garbage addr : ℕ) → HasRings tsk → HasRings (handle_aux_read garbage tsk addr).1
unfolding handle_aux_read
handle_aux_read-HasRings {tsk} garbage addr h =
    (read_branch (is_off tsk addr) (same _ h) (
      read_branch (addr == aux_irq) (same _ h) (
        read_branch (addr == aux_enables) (same _ h) (
          read_branch (addr == aux_mu_io_reg) (read_io-Kept garbage h) (
            read_branch (addr == aux_mu_ier_reg) (same _ h) (
              read_branch (addr == aux_mu_iir_reg) (same _ h) (
                read_branch (addr == aux_mu_lcr_reg) (same _ h) (
                  read_branch (addr == aux_mu_mcr_reg) (same _ h) (
                    read_branch (addr == aux_mu_lsr_reg) (same _ (same_rings _ h)) (
                      read_branch (addr == aux_mu_msr_reg) (same _ h) (
                        read_branch (addr == aux_mu_scratch) (same _ h) (
                          read_branch (addr == aux_mu_cntl_reg) (same _ h) (
                            read_branch (addr == aux_mu_stat_reg) (same _ h) (
                              read_branch (addr == aux_mu_baud_reg) (same _ h)
                                (same _ h))))))))))))))).rings

-- With the UART on and the latch open, the data register is the two queues of the console: a write
-- puts the character's low byte at the end of the output, or drops it when the output is full, and
-- a read takes the first character of the input. Neither touches the other queue.
pub data_register_refines :
    {tsk : Task} (garbage val : ℕ)
    → HasRings tsk
    → is_off tsk aux_mu_io_reg ≡ false
    → latched tsk ≡ false
    → let put = handle_aux_write tsk aux_mu_io_reg val in
      let (char, got) = handle_aux_read garbage tsk aux_mu_io_reg in
      let (out, rest) = Queue.dequeue (contents tsk.console.in_fifo) in
      (contents put.console.out_fifo
        ≡ (Queue.enqueue (contents tsk.console.out_fifo) (val % 256)).1)
      × (contents put.console.in_fifo ≡ contents tsk.console.in_fifo)
      × (char ≡ (elim out [ none ↦ garbage | some v ↦ v ]) % 256)
      × (contents got.console.in_fifo ≡ rest)
      × (contents got.console.out_fifo ≡ contents tsk.console.out_fifo)
unfolding handle_aux_write handle_aux_read write_io read_io
data_register_refines {tsk} garbage val h on loose =
    let put = enqueue_fifo_refines (bit_and val 0xff) h.out_ring in
    let got = dequeue_fifo_refines h.in_ring in
    rw (on, loose)
      (
        ap (λ r. r.1) put
            ∙ ap (λ v. (Queue.enqueue (contents tsk.console.out_fifo) v).1) (bit_and_low 8 val),
        refl,
        bit_and_low 8 _ ∙ ap (λ r. (elim r.0 [ none ↦ garbage | some v ↦ v ]) % 256) got,
        ap (λ r. r.1) got,
        refl,
      )

-- The UART as the hypothesis of an access wants it: on, with its latch open.
abbrev pub IsOpen : Task → Type 0
IsOpen tsk = (is_off tsk aux_mu_io_reg ≡ false) × (latched tsk ≡ false)

pub read-pt_regs :
    (garbage : ℕ) (tsk : Task)
    → IsOpen tsk
    → (handle_aux_read garbage tsk aux_mu_io_reg).1.pt_regs ≡ tsk.pt_regs
unfolding handle_aux_read read_io
read-pt_regs garbage tsk (on, loose) = rw (on, loose) refl

pub write-pt_regs :
    (tsk : Task) (val : ℕ)
    → IsOpen tsk
    → (handle_aux_write tsk aux_mu_io_reg val).pt_regs ≡ tsk.pt_regs
unfolding handle_aux_write write_io
write-pt_regs tsk val (on, loose) = rw (on, loose) refl

ones_left : (x : ℕ) → not (complement 32 (bit_and x 0x1) == 0) ≡ true
ones_left x = ap not (
    ==_of_ne (complement 32 (bit_and x 0x1)) 0
      (λ (e : complement 32 (bit_and x 0x1) ≡ 0). omega (arith, e, bit_and_low 1 x)))

and_true : (b c : Bool) → c ≡ true → int_of (b && c) ≡ int_of b
and_true true c e = ap int_of e
and_true false c e = refl

-- AUX_IRQ reports the mini UART whenever it is switched on, whether or not it has an interrupt.
pub read_aux_irq_lem :
    (tsk : Task) → read_aux_irq tsk ≡ int_of (is_set tsk.board_data.aux.aux_enables 0x1)
unfolding read_aux_irq
read_aux_irq_lem tsk = and_true _ _ (ones_left _)
