-- ===== src/Bcm2837/Aux/Baud.antt =====
-- The divisor latch of the mini UART.
use Prim.Native.Nat.{bit_and, bit_or}
use avisor.Prelude.{
  ℕ, ◌+◌, ◌*◌, ◌%◌, ◌^◌, ◌≡◌, refl, ap, sym, ◌∙◌, arith, Bool, true, false, not, ◌==◌,
}
use avisor.Prelude.Bits.{bit_and_low, bit_and_field, bit_or_fields, bit_or_comm}
use avisor.Task.{Task}
use avisor.Board.{aux_mu_io_reg, aux_mu_ier_reg, aux_mu_lcr_reg}
use avisor.Bcm2837.Aux.{
  u8, u16, with_aux, is_set, is_off, latched, lcr_dlab, handle_aux_write, write_io, write_ier,
}

flipped : (b : Bool) → not b ≡ true → b ≡ false
flipped true e = sym e
flipped false e = refl

bytes :
    (old high low : ℕ)
    → u16 (
        bit_or
          (bit_and (u16 (bit_or (bit_and old 0xff) (bit_and high 0xff * 2 ^ 8))) 0xff00)
          (bit_and low 0xff))
      ≡ high % 256 * 256 + low % 256
bytes old high low =
    let inner : bit_or (old % 256) (high % 256 * 256) ≡ high % 256 * 256 + old % 256 =
      bit_or_comm (old % 256) (high % 256 * 256)
      ∙ bit_or_fields 8 (high % 256) (old % 256) (omega arith) in
    let word : u16 (high % 256 * 256 + old % 256) ≡ high % 256 * 256 + old % 256 = omega arith in
    let kept : bit_and (high % 256 * 256 + old % 256) 0xff00 ≡ high % 256 * 256 =
      bit_and_field 8 8 (high % 256 * 256 + old % 256) ∙ omega arith in
    rw (bit_and_low 8 old) (
      rw (bit_and_low 8 high) (
        rw (bit_and_low 8 low) (
          rw inner (
            rw word
              (rw kept (omega (arith, bit_or_fields 8 (high % 256) (low % 256) (omega arith))))))))

-- What a write does while the UART is on.
write_lcr :
    (tsk : Task) (val : ℕ)
    → is_off tsk aux_mu_lcr_reg ≡ false
    → handle_aux_write tsk aux_mu_lcr_reg val
      ≡ with_aux tsk (record (tsk.board_data.aux) { aux_mu_lcr = u8 val })
unfolding handle_aux_write
write_lcr tsk val on = rw on

write_to_ier :
    (tsk : Task) (val : ℕ)
    → is_off tsk aux_mu_ier_reg ≡ false
    → handle_aux_write tsk aux_mu_ier_reg val ≡ write_ier tsk val
unfolding handle_aux_write
write_to_ier tsk val on = rw on

write_to_io :
    (tsk : Task) (val : ℕ)
    → is_off tsk aux_mu_io_reg ≡ false
    → handle_aux_write tsk aux_mu_io_reg val ≡ write_io tsk val
unfolding handle_aux_write
write_to_io tsk val on = rw on

-- The divisor latch protocol: closing the latch, writing the high byte to the interrupt enable
-- register and the low byte to the data register sets the baud rate register to the two bytes and
-- opens the latch, and no character is written.
set_baud :
    (tsk : Task) (high low : ℕ)
    → is_set tsk.board_data.aux.aux_enables 1 ≡ true
    → let start = handle_aux_write tsk aux_mu_lcr_reg lcr_dlab in
      let done = handle_aux_write (handle_aux_write start aux_mu_ier_reg high) aux_mu_io_reg low in
      (done.board_data.aux.aux_mu_baud ≡ high % 256 * 256 + low % 256)
      × (latched done ≡ false)
      × (done.console ≡ tsk.console)
unfolding write_io write_ier
set_baud tsk high low on =
    let e : (bit_and tsk.board_data.aux.aux_enables 1 == 0) ≡ false = flipped _ on in
    let t : Task = with_aux tsk (record (tsk.board_data.aux) { aux_mu_lcr = u8 lcr_dlab }) in
    let steps =
      ap (λ u. handle_aux_write (handle_aux_write u aux_mu_ier_reg high) aux_mu_io_reg low)
        (write_lcr tsk lcr_dlab (rw e))
      ∙ ap (λ u. handle_aux_write u aux_mu_io_reg low) (write_to_ier t high (rw e))
      ∙ write_to_io (write_ier t high) low (rw e) in
    rw steps (bytes tsk.board_data.aux.aux_mu_baud high low, refl, refl)
