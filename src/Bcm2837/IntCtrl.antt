-- ===== src/Bcm2837/IntCtrl.antt =====
-- hypervisor/emulator/raspi/bcm2837.c: the interrupt controller.
pub mod Laws
use Prim.Native.Nat.{bit_and, bit_or}
use avisor.Prelude.{
  ℕ, ◌+◌, ◌-◌, ◌*◌, ◌/◌, ◌%◌, ◌^◌, Bool, true, false, not, ◌&&◌, ◌==◌, if◌then◌else◌, ltb, leb,
  int_of,
}
use avisor.Prelude.Bits.{complement}
use avisor.Task.{Task}
use avisor.Board.{
  BoardState, IntCtrl, irq_basic_pending, irq_pending_1, irq_pending_2, fiq_control, enable_irqs_1,
  enable_irqs_2, enable_basic_irqs, disable_irqs_1, disable_irqs_2, disable_basic_irqs,
}
use avisor.Bcm2837.Aux.{is_set, read_aux_irq, u8}

-- ADDR_IN_INTCTRL
abbrev pub addr_in_intctrl : ℕ → Bool
addr_in_intctrl a = leb irq_basic_pending a && leb a disable_basic_irqs

abbrev pub u32 : ℕ → ℕ
u32 x = x % 2 ^ 32

-- case IRQ_PENDING_1
pub read_pending_1 : Task → ℕ
read_pending_1 tsk =
    let enabled = tsk.board_data.intctrl.irqs_1_enabled in
    let cs = tsk.board_data.systimer.cs in
    let systimer_match1 = int_of (is_set enabled (2 ^ 1) && is_set cs 0x2) in
    let systimer_match3 = int_of (is_set enabled (2 ^ 3) && is_set cs 0x8) in
    bit_or (systimer_match1 * 2 ^ 1) (systimer_match3 * 2 ^ 3)

-- case IRQ_PENDING_2
pub read_pending_2 : Task → ℕ
read_pending_2 tsk =
    int_of (
      is_set tsk.board_data.intctrl.irqs_1_enabled (2 ^ (57 - 32)) && is_set (read_aux_irq tsk) 0x1)
    * 2 ^ (57 - 32)

-- case IRQ_BASIC_PENDING
pub read_basic_pending : Task → ℕ
unfolding read_pending_1 read_pending_2
read_basic_pending tsk =
    bit_or (int_of (not (read_pending_1 tsk == 0)) * 2 ^ 8)
      (int_of (not (read_pending_2 tsk == 0)) * 2 ^ 9)

-- `~` of a 32-bit field stays within 32 bits; that of the 8-bit field is an `int`, extended to 64.
unfoldable pub handle_intctrl_read : Task → ℕ → ℕ
unfolding read_basic_pending
handle_intctrl_read tsk addr =
    let c = tsk.board_data.intctrl in
    if addr == irq_basic_pending
    then read_basic_pending tsk
    else if addr == irq_pending_1
    then read_pending_1 tsk
    else if addr == irq_pending_2
    then read_pending_2 tsk
    else if addr == fiq_control
    then c.fiq_control
    else if addr == enable_irqs_1
    then c.irqs_1_enabled
    else if addr == enable_irqs_2
    then c.irqs_2_enabled
    else if addr == enable_basic_irqs
    then c.basic_irqs_enabled
    else if addr == disable_irqs_1
    then complement 32 c.irqs_1_enabled
    else if addr == disable_irqs_2
    then complement 32 c.irqs_2_enabled
    else if addr == disable_basic_irqs
    then complement 64 c.basic_irqs_enabled
    else 0

abbrev pub with_intctrl : Task → IntCtrl → Task
with_intctrl tsk c = record tsk { board_data = record (tsk.board_data) { intctrl = c } }

pub handle_intctrl_write : Task → (addr val : ℕ) → Task
handle_intctrl_write tsk addr val =
    let c = tsk.board_data.intctrl in
    if addr == fiq_control
    then with_intctrl tsk (record c { fiq_control = u8 val })
    else if addr == enable_irqs_1
    then with_intctrl tsk (record c { irqs_1_enabled = u32 (bit_or c.irqs_1_enabled val) })
    else if addr == enable_irqs_2
    then with_intctrl tsk (record c { irqs_2_enabled = u32 (bit_or c.irqs_2_enabled val) })
    else if addr == enable_basic_irqs
    then with_intctrl tsk (record c { basic_irqs_enabled = u8 (bit_or c.basic_irqs_enabled val) })
    else if addr == disable_irqs_1
    then with_intctrl tsk
        (record c { irqs_1_enabled = u32 (bit_and c.irqs_1_enabled (complement 64 val)) })
    else if addr == disable_irqs_2
    then with_intctrl tsk
        (record c { irqs_2_enabled = u32 (bit_and c.irqs_2_enabled (complement 64 val)) })
    else if addr == disable_basic_irqs
    then with_intctrl tsk
        (record c { basic_irqs_enabled = u8 (bit_and c.basic_irqs_enabled (complement 64 val)) })
    else tsk

-- `bcm2837_is_irq_asserted`
unfoldable pub is_irq_asserted : Task → Bool
unfolding handle_intctrl_read
is_irq_asserted tsk = not (handle_intctrl_read tsk irq_basic_pending == 0)

-- `bcm2837_is_fiq_asserted`. `source` is seven bits, so it is never negative; the readings fit an
-- `int`, as bits 0 to 30 of each are the only ones that are ever set.
unfoldable pub is_fiq_asserted : Task → Bool
unfolding handle_intctrl_read
is_fiq_asserted tsk =
    let control = tsk.board_data.intctrl.fiq_control in
    let source = bit_and control 0x7f in
    if bit_and control 0x80 == 0
    then false
    else if leb source 31
    then is_set (handle_intctrl_read tsk irq_pending_1) (2 ^ source)
    else if leb source 63
    then is_set (handle_intctrl_read tsk irq_pending_2) (2 ^ (source - 32))
    else if leb source 71
    then is_set (handle_intctrl_read tsk irq_basic_pending) (2 ^ (source - 64))
    else false
