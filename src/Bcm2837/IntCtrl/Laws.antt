-- ===== src/Bcm2837/IntCtrl/Laws.antt =====
-- What the registers of the interrupt controller do to single lines, and when the VM is
-- interrupted.
use Prim.Native.Nat.{bit_and, bit_or}
use avisor.Prelude.{
  ℕ, ◌-◌, ◌*◌, ◌%◌, ◌^◌, ◌<◌, ◌≡◌, refl, ap, ◌∙◌, arith, min, max, Bool, true, false, not, ◌&&◌,
  ◌||◌, ◌==◌, int_of,
}
use avisor.Prelude.Bits.{complement, bit, bit-mod, bit-bit_or, bit-bit_and, bit-complement}
use avisor.Task.{Task}
use avisor.Board.{enable_irqs_1, enable_irqs_2, disable_irqs_1}
use avisor.Bcm2837.Aux.{is_set}
use avisor.Bcm2837.Aux.Laws.{read_aux_irq_lem}
use avisor.Bcm2837.IntCtrl.{
  handle_intctrl_read, handle_intctrl_write, is_irq_asserted, read_pending_1, read_pending_2,
  read_basic_pending,
}

-- `enabled |= val`, cut to 32 bits, line by line.
set_lines : (n old val : ℕ) → n < 32 → bit n (bit_or old val % 2 ^ 32) ≡ max (bit n old) (bit n val)
set_lines n old val h = bit-mod 32 n (bit_or old val) h ∙ bit-bit_or n old val

-- `enabled &= ~val`, cut to 32 bits, line by line.
pub clear_lines :
    (n old val : ℕ)
    → n < 32
    → val < 2 ^ 64
    → bit n (bit_and old (complement 64 val) % 2 ^ 32) ≡ min (bit n old) (1 - bit n val)
clear_lines n old val h k =
    bit-mod 32 n (bit_and old (complement 64 val)) h
    ∙ bit-bit_and n old (complement 64 val)
    ∙ ap (min (bit n old)) (bit-complement 64 n val (omega arith) k)

-- Writing a word to an enable register raises exactly the lines of its ones, and writing one to a
-- disable register drops exactly those, for the 32 lines of the first bank; a read of the enable
-- register shows it, and the second bank is as before.
handle_intctrl_write-lines :
    (tsk : Task) (val n : ℕ)
    → val < 2 ^ 64
    → n < 32
    → let line : Task → ℕ = λ t. bit n (handle_intctrl_read t enable_irqs_1) in
      let other : Task → ℕ = λ t. handle_intctrl_read t enable_irqs_2 in
      let on = handle_intctrl_write tsk enable_irqs_1 val in
      let off = handle_intctrl_write tsk disable_irqs_1 val in
      (line on ≡ max (line tsk) (bit n val))
      × (line off ≡ min (line tsk) (1 - bit n val))
      × (other on ≡ other tsk)
      × (other off ≡ other tsk)
unfolding handle_intctrl_read handle_intctrl_write
handle_intctrl_write-lines tsk val n h k =
    let old = tsk.board_data.intctrl.irqs_1_enabled in
    (set_lines n old val k, clear_lines n old val k h, refl, refl)

basic :
    (p q r : Bool)
    → not (
        bit_or
          (int_of (not (bit_or (int_of p * 2 ^ 1) (int_of q * 2 ^ 3) == 0)) * 2 ^ 8)
          (int_of (not (int_of r * 2 ^ (57 - 32) == 0)) * 2 ^ 9)
        == 0)
      ≡ p || q || r
basic true true true = refl
basic true true false = refl
basic true false true = refl
basic true false false = refl
basic false true true = refl
basic false true false = refl
basic false false true = refl
basic false false false = refl

read_back : (b : Bool) → is_set (int_of b) 0x1 ≡ b
read_back true = refl
read_back false = refl

-- The VM has an interrupt pending exactly when a line of system timer 1 or 3 is enabled and its
-- match is set, or line 25 of the first bank is enabled and the mini UART is switched on.
pub is_irq_asserted_lem :
    (tsk : Task)
    → let lines = tsk.board_data.intctrl.irqs_1_enabled in
      let matches = tsk.board_data.systimer.cs in
      is_irq_asserted tsk
      ≡ (is_set lines (2 ^ 1) && is_set matches (2 ^ 1))
        || (is_set lines (2 ^ 3) && is_set matches (2 ^ 3))
        || (is_set lines (2 ^ 25) && is_set tsk.board_data.aux.aux_enables 1)
unfolding is_irq_asserted handle_intctrl_read read_basic_pending read_pending_1 read_pending_2
is_irq_asserted_lem tsk =
    let lines = tsk.board_data.intctrl.irqs_1_enabled in
    let cs = tsk.board_data.systimer.cs in
    let uart = is_set tsk.board_data.aux.aux_enables 1 in
    rw (read_aux_irq_lem tsk) (
      rw (read_back uart) (
        basic (is_set lines (2 ^ 1) && is_set cs (2 ^ 1))
          (is_set lines (2 ^ 3) && is_set cs (2 ^ 3)) (is_set lines (2 ^ 25) && uart)))
