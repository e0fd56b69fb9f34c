-- ===== src/Sd/Clock.antt =====
-- hypervisor/boards/raspi/sd.c: sd_clk.
pub mod Divisor
use Prim.Native.Nat.{bit_and, bit_or}
use avisor.Prelude.{ℕ, ◌+◌, ◌-◌, ◌*◌, ◌/◌, ◌%◌, ◌^◌, Bool, not, ◌==◌, if◌then◌else◌, ltb, leb}
use avisor.Prelude.Bits.{complement}
use avisor.Sd.Registers.{
  emmc_status, emmc_control1, sr_cmd_inhibit, sr_dat_inhibit, c1_clk_en, c1_clk_stable,
  host_spec_v2, sd_ok, sd_error,
}
use avisor.Sd.{M, ◌>>=◌, ◌>>◌, pure, gets, get32, put32, wait_msec_st, has, spin}

-- One step of the search for the highest bit.
pub narrow : (mask k : ℕ) → ℕ × ℕ → ℕ × ℕ
narrow mask k (x, s) = if bit_and x mask == 0 then (x * 2 ^ k % 2 ^ 32, s - k) else (x, s)

pub normalise : ℕ → ℕ × ℕ
normalise x =
    narrow 0x80000000 1 (
      narrow 0xc0000000 2
        (narrow 0xf0000000 4 (narrow 0xff000000 8 (narrow 0xffff0000 16 (x, 32)))))

-- `s` for the value of `x`.
pub shift : ℕ → ℕ
shift x =
    if x == 0
    then 0
    else (let (x', s) = normalise x in
        let s' = if ltb 0 s then s - 1 else s in if ltb 7 s' then 7 else s')

-- The bits of EMMC_CONTROL1 for the frequency `f`.
pub divisor : (hv f : ℕ) → ℕ
divisor hv f =
    let c = 41666666 / f in
    let wide = ltb host_spec_v2 hv in
    let d = if wide then c else 2 ^ shift ((c + 2 ^ 32 - 1) % 2 ^ 32) in
    let d' = if leb d 2 then 2 else d in
    let h = if wide then bit_and d' 0x300 / 2 ^ 2 else 0 in bit_or (bit_and d' 0x0ff * 2 ^ 8) h

pub is_busy : M Bool
is_busy = do status ← get32 emmc_status; pure (has status (bit_or sr_cmd_inhibit sr_dat_inhibit))

pub is_unstable : M Bool
is_unstable = do c ← get32 emmc_control1; pure (not (has c c1_clk_stable))

pub set_clock : (f : ℕ) → M ℕ
set_clock f = do
  c ← get32 emmc_control1
  put32 emmc_control1 (bit_and c (complement 32 c1_clk_en))
  wait_msec_st 10
  hv ← gets (λ s. s.hv)
  c' ← get32 emmc_control1
  put32 emmc_control1 (bit_or (bit_and c' 0xffff003f) (divisor hv f))
  wait_msec_st 10
  c'' ← get32 emmc_control1
  put32 emmc_control1 (bit_or c'' c1_clk_en)
  wait_msec_st 10
  stable ← spin is_unstable (wait_msec_st 10) 10000
  pure (if stable then sd_ok else sd_error)

unfoldable pub sd_clk : (f : ℕ) → M ℕ
sd_clk f = do
  free ← spin is_busy (wait_msec_st 1) 100000
  if free then set_clock f else pure sd_error
