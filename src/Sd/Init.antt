-- ===== src/Sd/Init.antt =====
-- hypervisor/boards/raspi/sd.c: sd_init. Its last loop counts nothing down, so the model takes fuel
-- for it, and returns none when the fuel runs out.
pub mod Scr
use Prim.Native.Nat.{bit_and, bit_or}
use avisor.Prelude.{
  ℕ, zero, suc, ◌+◌, ◌-◌, ◌*◌, ◌/◌, ◌%◌, ◌^◌, Bool, true, false, not, ◌&&◌, ◌||◌, Option, none,
  some, List, ◌==◌, if◌then◌else◌, ltb,
}
use avisor.Prelude.Bits.{complement}
use avisor.Bcm2837.Mmio.{gppudclk1}
use avisor.Sd.Registers.{
  gpfsel4, gpfsel5, gppud, gphen1, emmc_blksizecnt, emmc_control0, emmc_control1, emmc_int_en,
  emmc_int_mask, emmc_slotisr_ver, emmc_status, emmc_data, host_spec_num, host_spec_num_shift,
  c1_srst_hc, c1_clk_intlen, c1_tounit_max, c0_hctl_dwitdh, cmd_go_idle, cmd_send_if_cond,
  cmd_send_op_cond, cmd_all_send_cid, cmd_send_rel_addr, cmd_card_select, cmd_send_scr,
  cmd_set_bus_width, sr_dat_inhibit, sr_read_available, int_read_rdy, scr_sd_bus_width_4,
  scr_supp_ccs, acmd41_arg_hc, acmd41_cmd_complete, acmd41_voltage, acmd41_cmd_ccs, sd_ok,
  sd_timeout, sd_error,
}
use avisor.Sd.{
  Sd, M, ◌>>=◌, ◌>>◌, pure, gets, modify, get32, put32, wait_msec_st, wait_cycles, to_long, has,
  spin, sd_status, sd_int, sd_cmd,
}
use avisor.Sd.Clock.{sd_clk}

-- Pull-ups for the pins of a mask.
pub pull_up : (mask : ℕ) → M (Unit {0})
pull_up mask = do
  put32 gppud 2
  wait_cycles 150
  put32 gppudclk1 mask
  wait_cycles 150
  put32 gppud 0
  put32 gppudclk1 0

pub setup_gpio : M (Unit {0})
setup_gpio = do
  r ← get32 gpfsel4
  put32 gpfsel4 (bit_and r (complement 32 (7 * 2 ^ 21)))
  pull_up (2 ^ 15)
  r' ← get32 gphen1
  put32 gphen1 (bit_or r' (2 ^ 15))
  r'' ← get32 gpfsel4
  put32 gpfsel4 (bit_or r'' (bit_or (7 * 2 ^ 24) (7 * 2 ^ 27)))
  pull_up (bit_or (2 ^ 16) (2 ^ 17))
  r''' ← get32 gpfsel5
  put32 gpfsel5 (bit_or r''' (bit_or (bit_or (bit_or 7 (7 * 2 ^ 3)) (7 * 2 ^ 6)) (7 * 2 ^ 9)))
  pull_up (bit_or (bit_or (bit_or (2 ^ 18) (2 ^ 19)) (2 ^ 20)) (2 ^ 21))

pub is_in_reset : M Bool
is_in_reset = do c ← get32 emmc_control1; pure (has c c1_srst_hc)

-- Whether the reset ends in time.
pub reset : M Bool
reset = do
  v ← get32 emmc_slotisr_ver
  modify (λ s. record s { hv = bit_and v host_spec_num / 2 ^ host_spec_num_shift })
  put32 emmc_control0 0
  c ← get32 emmc_control1
  put32 emmc_control1 (bit_or c c1_srst_hc)
  wait_msec_st 10
  spin is_in_reset (wait_msec_st 10) 10000

pub start_clock : M ℕ
start_clock = do
  c ← get32 emmc_control1
  put32 emmc_control1 (bit_or c (bit_or c1_clk_intlen c1_tounit_max))
  wait_msec_st 10
  sd_clk 400000

-- `return sd_err`, from an int function.
pub err_word : M ℕ
err_word = gets (λ s. s.err % 2 ^ 32)

-- The result of a stage, none if sd_init goes on.
abbrev pub Stage : Type 0
Stage = M (Option ℕ)

abbrev pub unless_err : Stage → Stage
unless_err m = do e ← gets (λ s. s.err); if e == 0 then m else (do w ← err_word; pure (some w))

pub or_go_on : Option ℕ → M (Option ℕ) → M (Option ℕ)
or_go_on (some w) k = pure (some w)
or_go_on none k = k

pub then_stage : Stage → M (Option ℕ) → M (Option ℕ)
then_stage m k = do r ← m; or_go_on r k

pub identify : Stage
identify = do
  put32 emmc_int_en 0xffffffff
  put32 emmc_int_mask 0xffffffff
  modify (λ s. record s { scr0 = 0; scr1 = 0; rca = 0; err = 0 })
  sd_cmd cmd_go_idle 0
  unless_err (do sd_cmd cmd_send_if_cond 0x000001AA; unless_err (pure none))

-- The loop of ACMD41 with `cnt` rounds left and the last response: a return, or the response and
-- whether `cnt` is other than 0 after the loop.
pub data Polled : Type 0 where
  returned : ℕ → Polled
  ended : (r : ℕ) (rounds_left : Bool) → Polled

pub poll_op_cond : (r cnt : ℕ) → M Polled
poll_op_cond r zero = pure (ended r (not (has r acmd41_cmd_complete)))
poll_op_cond r (suc cnt) =
    let round : M Polled = (do
      wait_cycles 400
      r' ← sd_cmd cmd_send_op_cond acmd41_arg_hc
      e ← gets (λ s. s.err)
      if not (e == to_long sd_timeout) && not (e == sd_ok)
          then (do w ← err_word; pure (returned w))
          else poll_op_cond r' cnt) in
    if has r acmd41_cmd_complete then pure (ended r true) else round

-- Whether the card is one of blocks: `ccs`.
pub accept : Polled → Option ℕ × ℕ
accept (returned w) = (some w, 0)
accept (ended r rounds_left) =
    if not (has r acmd41_cmd_complete) || not rounds_left
    then (some sd_timeout, 0)
    else if not (has r acmd41_voltage)
    then (some sd_error, 0)
    else (none, if has r acmd41_cmd_ccs then scr_supp_ccs else 0)

pub select_card : Stage
select_card = do
  sd_cmd cmd_all_send_cid 0
  rca ← sd_cmd cmd_send_rel_addr 0
  modify (λ s. record s { rca = to_long rca })
  unless_err (do
    r ← sd_clk 25000000
    if not (r == 0) then pure (some r) else (do
      addr ← gets (λ s. s.rca)
      sd_cmd cmd_card_select (addr % 2 ^ 32)
      unless_err (pure none)))

pub ask_scr : Stage
ask_scr = do
  busy ← sd_status sr_dat_inhibit
  if not (busy == 0) then pure (some sd_timeout) else (do
    put32 emmc_blksizecnt (bit_or (2 ^ 16) 8)
    sd_cmd cmd_send_scr 0
    unless_err (do r ← sd_int int_read_rdy; pure (if r == 0 then none else some sd_timeout)))

pub set_scr : (i v : ℕ) → Sd → Sd
set_scr i v s = if i == 0 then record s { scr0 = v } else record s { scr1 = v }

-- The loop over the two words of the SCR, from word `r` on.
pub read_scr : (fuel r : ℕ) → M (Option (Unit {0}))
read_scr zero r = pure none
read_scr (suc fuel) r =
    let round : M (Option (Unit {0})) = (do
      status ← get32 emmc_status
      if has status sr_read_available
          then (do v ← get32 emmc_data; modify (set_scr r v); read_scr fuel (r + 1))
          else wait_msec_st 1 >> read_scr fuel r) in
    if ltb r 2 then round else pure (some tt)

pub set_width : Stage
set_width = do
  wide ← gets (λ s. has s.scr0 scr_sd_bus_width_4)
  if wide
      then (do
        rca ← gets (λ s. s.rca)
        sd_cmd cmd_set_bus_width (bit_or rca 2 % 2 ^ 32)
        unless_err
            (do c ← get32 emmc_control0; put32 emmc_control0 (bit_or c c0_hctl_dwitdh); pure none))
      else pure none

pub set_ccs : (ccs : ℕ) → M (Option ℕ)
set_ccs ccs = do
  modify (λ s. record s { scr0 = bit_or (bit_and s.scr0 (complement 64 scr_supp_ccs)) ccs })
  pure (some sd_ok)

pub with_scr : (ccs : ℕ) → Option (Unit {0}) → M (Option ℕ)
with_scr ccs none = pure none
with_scr ccs (some u) = then_stage set_width (set_ccs ccs)

pub finish_init : (fuel ccs : ℕ) → M (Option ℕ)
finish_init fuel ccs = do read ← read_scr fuel 0; with_scr ccs read

pub setup_card : (fuel : ℕ) → M (Option ℕ)
setup_card fuel = then_stage identify (do
  polled ← poll_op_cond 0 6
  then_stage (pure (accept polled).0)
      (then_stage select_card (then_stage ask_scr (finish_init fuel (accept polled).1))))

unfoldable pub sd_init : (fuel : ℕ) → M (Option ℕ)
sd_init fuel = do
  setup_gpio
  in_time ← reset
  if not in_time
      then pure (some sd_error)
      else (do r ← start_clock; if not (r == 0) then pure (some r) else setup_card fuel)
