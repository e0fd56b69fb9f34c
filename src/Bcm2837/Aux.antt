-- ===== src/Bcm2837/Aux.antt =====
-- hypervisor/emulator/raspi/bcm2837.c: the mini UART, over the rings of the VM's console. The reads
-- return the value and the task, which some registers change.
pub mod Laws
pub mod Baud
use Prim.Native.Nat.{bit_and, bit_or}
use avisor.Prelude.{
  ℕ, zero, suc, ◌+◌, ◌-◌, ◌*◌, ◌/◌, ◌%◌, ◌^◌, ◌<◌, min, Bool, true, false, not, ◌&&◌, Option, none,
  some, ◌==◌, if◌then◌else◌, ltb, leb, int_of,
}
use avisor.Prelude.Bits.{complement}
use avisor.Fifo.{
  Fifo, is_empty_fifo, is_full_fifo, used_of_fifo, enqueue_fifo, dequeue_fifo, clear_fifo,
}
use avisor.Task.{Task, Console}
use avisor.Board.{
  BoardState, Aux, aux_irq, aux_enables, aux_mu_io_reg, aux_mu_ier_reg, aux_mu_iir_reg,
  aux_mu_lcr_reg, aux_mu_mcr_reg, aux_mu_lsr_reg, aux_mu_msr_reg, aux_mu_scratch, aux_mu_cntl_reg,
  aux_mu_stat_reg, aux_mu_baud_reg,
}

-- ADDR_IN_AUX and ADDR_IN_AUX_MU
abbrev pub addr_in_aux : ℕ → Bool
addr_in_aux a = leb aux_irq a && leb a aux_mu_baud_reg

abbrev pub addr_in_aux_mu : ℕ → Bool
addr_in_aux_mu a = leb aux_mu_io_reg a && leb a aux_mu_baud_reg

-- LCR_DLAB
abbrev pub lcr_dlab : ℕ
lcr_dlab = 0x80

-- A value stored in a `uint8_t` or `uint16_t`.
abbrev pub u8 : ℕ → ℕ
u8 x = x % 2 ^ 8

abbrev pub u16 : ℕ → ℕ
u16 x = x % 2 ^ 16

abbrev pub with_aux : Task → Aux → Task
with_aux tsk a = record tsk { board_data = record (tsk.board_data) { aux = a } }

abbrev pub with_in : Task → Fifo → Task
with_in tsk f = record tsk { console = record (tsk.console) { in_fifo = f } }

abbrev pub with_out : Task → Fifo → Task
with_out tsk f = record tsk { console = record (tsk.console) { out_fifo = f } }

abbrev pub is_set : ℕ → ℕ → Bool
is_set x mask = not (bit_and x mask == 0)

-- The test at the top of both handlers: the UART is off, and the register is one of its own.
abbrev pub is_off : Task → ℕ → Bool
is_off tsk addr = (bit_and tsk.board_data.aux.aux_enables 1 == 0) && addr_in_aux_mu addr

-- `s->aux.aux_mu_lcr & LCR_DLAB`
abbrev pub latched : Task → Bool
latched tsk = is_set tsk.board_data.aux.aux_mu_lcr lcr_dlab

-- `s->aux.aux_mu_lcr &= ~LCR_DLAB`
abbrev pub unlatch : Aux → Aux
unlatch a = record a { aux_mu_lcr = u8 (bit_and a.aux_mu_lcr (complement 32 lcr_dlab)) }

-- case AUX_MU_IIR_REG
read_iir : Task → ℕ
read_iir tsk =
    let a = tsk.board_data.aux in
    let tx_int = int_of (is_set a.aux_mu_ier 0x2 && is_empty_fifo tsk.console.out_fifo) in
    let rx_int = int_of (is_set a.aux_mu_ier 0x1 && not (is_empty_fifo tsk.console.in_fifo)) in
    let both = bit_or tx_int (rx_int * 2) in
    let int_id : ℕ = if both == 0x3 then 0x1 else both in
    bit_or (bit_or (int_of (int_id == 0)) (int_id * 2)) (0x3 * 2 ^ 6)

-- case AUX_IRQ. The `~` of the 0 or 1 that the identification register ends in is never 0; a read
-- of that register is 0 while the UART is off.
pub read_aux_irq : Task → ℕ
unfolding read_iir
read_aux_irq tsk =
    let iir : ℕ = if is_off tsk aux_mu_iir_reg then 0 else read_iir tsk in
    int_of (is_set tsk.board_data.aux.aux_enables 0x1 && not (complement 32 (bit_and iir 0x1) == 0))

-- case AUX_MU_LSR_REG
read_lsr : Task → ℕ
read_lsr tsk =
    let dready = int_of (not (is_empty_fifo tsk.console.in_fifo)) in
    let tx_empty = int_of (not (is_full_fifo tsk.console.out_fifo)) in
    let tx_idle = int_of (is_empty_fifo tsk.console.out_fifo) in
    bit_or (bit_or (bit_or dready (tsk.board_data.aux.mu_rx_overrun * 2)) (tx_empty * 2 ^ 5))
      (tx_idle * 2 ^ 6)

-- case AUX_MU_STAT_REG
read_stat : Task → ℕ
read_stat tsk =
    let sym_avail = int_of (not (is_empty_fifo tsk.console.in_fifo)) in
    let space_avail = int_of (not (is_full_fifo tsk.console.out_fifo)) in
    let rx_idle = int_of (is_empty_fifo tsk.console.in_fifo) in
    let tx_idle = int_of (not (is_empty_fifo tsk.console.out_fifo)) in
    let rx_overrun = tsk.board_data.aux.mu_rx_overrun in
    let tx_full = int_of (is_full_fifo tsk.console.out_fifo) in
    let tx_empty = int_of (is_empty_fifo tsk.console.out_fifo) in
    let tx_done = bit_and rx_idle tx_empty in
    let rx_fifo_level = min (used_of_fifo tsk.console.in_fifo) 8 in
    let tx_fifo_level = min (used_of_fifo tsk.console.out_fifo) 8 in
    let low =
      bit_or (bit_or (bit_or sym_avail (space_avail * 2)) (rx_idle * 2 ^ 2)) (tx_idle * 2 ^ 3) in
    let mid =
      bit_or (bit_or (bit_or low (rx_overrun * 2 ^ 4)) (tx_full * 2 ^ 5)) (tx_empty * 2 ^ 8) in
    bit_or (bit_or (bit_or mid (tx_done * 2 ^ 9)) (rx_fifo_level * 2 ^ 16)) (tx_fifo_level * 2 ^ 24)

-- case AUX_MU_IO_REG. From an empty ring the code returns a local that it has not set: `garbage`.
read_io : ℕ → Task → ℕ × Task
read_io garbage tsk =
    let a = tsk.board_data.aux in
    let (out, rest) = dequeue_fifo tsk.console.in_fifo in
    if latched tsk
    then (bit_and a.aux_mu_baud 0xff, with_aux tsk (unlatch a))
    else (bit_and (elim out [ none ↦ garbage | some v ↦ v ]) 0xff, with_in tsk rest)

unfoldable pub handle_aux_read : ℕ → Task → ℕ → ℕ × Task
unfolding read_aux_irq read_io read_iir read_lsr read_stat
handle_aux_read garbage tsk addr =
    let a = tsk.board_data.aux in
    if is_off tsk addr
    then (0, tsk)
    else if addr == aux_irq
    then (read_aux_irq tsk, tsk)
    else if addr == aux_enables
    then (a.aux_enables, tsk)
    else if addr == aux_mu_io_reg
    then read_io garbage tsk
    else if addr == aux_mu_ier_reg
    then ((if latched tsk then a.aux_mu_baud / 2 ^ 8 else a.aux_mu_ier), tsk)
    else if addr == aux_mu_iir_reg
    then (read_iir tsk, tsk)
    else if addr == aux_mu_lcr_reg
    then (a.aux_mu_lcr, tsk)
    else if addr == aux_mu_mcr_reg
    then (a.aux_mu_mcr, tsk)
    else if addr == aux_mu_lsr_reg
    then (read_lsr tsk, with_aux tsk (record a { mu_rx_overrun = 0 }))
    else if addr == aux_mu_msr_reg
    then (a.aux_mu_msr, tsk)
    else if addr == aux_mu_scratch
    then (a.aux_mu_scratch, tsk)
    else if addr == aux_mu_cntl_reg
    then (a.aux_mu_cntl, tsk)
    else if addr == aux_mu_stat_reg
    then (read_stat tsk, tsk)
    else if addr == aux_mu_baud_reg
    then (a.aux_mu_baud, tsk)
    else (0, tsk)

-- case AUX_MU_IO_REG
write_io : Task → ℕ → Task
write_io tsk val =
    let a = tsk.board_data.aux in
    if latched tsk
    then with_aux tsk (record (unlatch a) {
      aux_mu_baud = u16 (bit_or (bit_and a.aux_mu_baud 0xff00) (bit_and val 0xff));
    })
    else with_out tsk (enqueue_fifo tsk.console.out_fifo (bit_and val 0xff)).1

-- case AUX_MU_IER_REG
write_ier : Task → ℕ → Task
write_ier tsk val =
    let a = tsk.board_data.aux in
    if latched tsk
    then with_aux tsk (record a {
      aux_mu_baud = u16 (bit_or (bit_and a.aux_mu_baud 0xff) (bit_and val 0xff * 2 ^ 8));
    })
    else with_aux tsk (record a { aux_mu_ier = u8 val })

-- case AUX_MU_IIR_REG
write_iir : Task → ℕ → Task
write_iir tsk val =
    let cleared : Task =
      if is_set val 0x2 then with_in tsk (clear_fifo tsk.console.in_fifo) else tsk in
    if is_set val 0x4 then with_out cleared (clear_fifo tsk.console.out_fifo) else cleared

pub handle_aux_write : Task → (addr val : ℕ) → Task
unfolding write_io write_ier write_iir
handle_aux_write tsk addr val =
    let a = tsk.board_data.aux in
    if is_off tsk addr
    then tsk
    else if addr == aux_enables
    then with_aux tsk (record a { aux_enables = u8 val })
    else if addr == aux_mu_io_reg
    then write_io tsk val
    else if addr == aux_mu_ier_reg
    then write_ier tsk val
    else if addr == aux_mu_iir_reg
    then write_iir tsk val
    else if addr == aux_mu_lcr_reg
    then with_aux tsk (record a { aux_mu_lcr = u8 val })
    else if addr == aux_mu_mcr_reg
    then with_aux tsk (record a { aux_mu_mcr = u8 val })
    else if addr == aux_mu_scratch
    then with_aux tsk (record a { aux_mu_scratch = u8 val })
    else if addr == aux_mu_cntl_reg
    then with_aux tsk (record a { aux_mu_cntl = u8 val })
    else if addr == aux_mu_baud_reg
    then with_aux tsk (record a { aux_mu_baud = u16 val })
    else tsk
