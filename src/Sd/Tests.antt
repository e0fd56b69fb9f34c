-- ===== src/Sd/Tests.antt =====
-- A card that answers at once, and what the driver does with it.
use Prim.Native.Nat.{bit_or}
use avisor.Prelude.{
  ℕ, ◌+◌, ◌≡◌, refl, List, [], ◌∷◌, none, some, ◌==◌, if◌then◌else◌, arith, length,
}
use avisor.Sd.Registers.{
  emmc_cmdtm, emmc_resp0, emmc_data, emmc_status, emmc_control1, emmc_interrupt, cmd_send_rel_addr,
  sr_read_available, c1_clk_stable, int_cmd_done, int_read_rdy, scr_supp_ccs,
}
use avisor.Sd.{Event, got, put, waited_msec, waited_cycles, Hardware, Sd}
use avisor.Sd.Trace.{view}
use avisor.Sd.Block.{sd_readblock}
use avisor.Sd.Init.{sd_init, finish_init}
use avisor.Sd.Init.Scr.{sd_init-Returns, finish_init-hangs}
use avisor.Sd.Block.Read.{IsRead, sd_readblock-IsRead}
use avisor.Sd.Disk.{disk_read, res_ok}
use avisor.Sd.Disk.Errors.{disk_read-ok}

abbrev last_command : List Event → ℕ
last_command [] = 0
last_command (put addr v ∷ es) = if addr == emmc_cmdtm then v else last_command es
last_command (got addr v ∷ es) = last_command es
last_command (waited_msec n ∷ es) = last_command es
last_command (waited_cycles n ∷ es) = last_command es

abbrev card : Hardware
card h addr =
    if addr == emmc_resp0
    then (if last_command h == cmd_send_rel_addr then 0x12340000 else 0xC0FF8020)
    else if addr == emmc_status
    then sr_read_available
    else if addr == emmc_interrupt
    then bit_or int_cmd_done int_read_rdy
    else if addr == emmc_control1
    then c1_clk_stable
    else if addr == emmc_data
    then length h
    else 0

abbrev ready_sd : Sd
ready_sd = record { scr0 = scr_supp_ccs; scr1 = 0; rca = 0x12340000; err = 0; hv = 2; history = [] }

sd_readblock-IsRead_example :
    IsRead 5 2
      (view ready_sd)
      (sd_readblock 5 2 card ready_sd).0
      (view (sd_readblock 5 2 card ready_sd).1)
sd_readblock-IsRead_example = sd_readblock-IsRead 5 2 card ready_sd (omega arith)

sd_init-Returns_example : (w : ℕ) × ((sd_init (0 + 3) card ready_sd).0 ≡ some w)
sd_init-Returns_example = sd_init-Returns 0 card ready_sd (λ h _. refl)

disk_read-ok_example : (disk_read 5 2 card ready_sd).0.0 ≡ res_ok
disk_read-ok_example = disk_read-ok 5 2 card ready_sd (omega arith) (omega arith)

-- A controller without a card: every register holds 0.
abbrev nothing : Hardware
nothing h addr = 0

finish_init-hangs_example : (finish_init 100 1 nothing ready_sd).0 ≡ none
finish_init-hangs_example = finish_init-hangs nothing 100 1 ready_sd (λ h. refl)
