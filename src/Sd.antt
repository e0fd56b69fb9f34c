-- ===== src/Sd.antt =====
-- hypervisor/boards/raspi/sd.c: the driver of the SD card, to sd_cmd. The controller is an argument:
-- what a register holds, given all that was done before. A word is 32 bits wide, an int is its
-- word, and sd_scr, sd_rca, sd_err and sd_hv are of 64 bits.
pub mod Registers
pub mod Block
pub mod Trace
pub mod Command
pub mod Clock
pub mod Init
pub mod Disk
mod Tests
use Prim.Native.Nat.{bit_and, bit_or}
use avisor.Prelude.{
  ℕ, zero, suc, ◌+◌, ◌-◌, ◌*◌, ◌/◌, ◌%◌, ◌^◌, Bool, true, false, not, ◌&&◌, ◌||◌, List, [], ◌∷◌,
  ◌==◌, if◌then◌else◌, ltb,
}
use avisor.Prelude.Bits.{complement}
use Registers.{
  emmc_arg1, emmc_cmdtm, emmc_resp0, emmc_resp1, emmc_resp2, emmc_resp3, emmc_status,
  emmc_interrupt, cmd_need_app, cmd_rspns_48, cmd_errors_mask, cmd_rca_mask, cmd_go_idle,
  cmd_all_send_cid, cmd_send_rel_addr, cmd_send_if_cond, cmd_app_cmd, cmd_send_op_cond,
  sr_cmd_inhibit, sr_app_cmd, int_data_timeout, int_cmd_timeout, int_cmd_done, int_error_mask,
  sd_ok, sd_timeout, sd_error,
}

-- What the driver does to the outside: a read with its value, a write, and the two waits.
pub data Event : Type 0 where
  got : (addr value : ℕ) → Event
  put : (addr value : ℕ) → Event
  waited_msec : ℕ → Event
  waited_cycles : ℕ → Event

-- What a register holds after a history, whose last event stands first.
abbrev pub Hardware : Type 0
Hardware = List Event → ℕ → ℕ

pub record Sd : Type 0 where
  pub scr0 : ℕ
  pub scr1 : ℕ
  pub rca : ℕ
  pub err : ℕ
  pub hv : ℕ
  pub history : List Event

abbrev pub M : Type 0 → Type 0
M A = Hardware → Sd → A × Sd

infixl 5 ◌>>=◌ ◌>>◌
unfoldable pub ◌>>=◌ : {A B : Type 0} → M A → (A → M B) → M B
◌>>=◌ m f hw s = let (a, s') = m hw s in f a hw s'

abbrev pub ◌>>◌ : {A B : Type 0} → M A → M B → M B
m >> k = m >>= λ _. k

module _ {A : Type 0} where
  unfoldable pub pure : A → M A
  pure a hw s = (a, s)

  unfoldable pub gets : (Sd → A) → M A
  gets f hw s = (f s, s)

unfoldable pub modify : (Sd → Sd) → M (Unit {0})
modify f hw s = (tt, f s)

unfoldable pub get32 : ℕ → M ℕ
get32 addr hw s =
    let v = hw s.history addr % 2 ^ 32 in (v, record s { history = got addr v ∷ s.history })

unfoldable pub put32 : ℕ → ℕ → M (Unit {0})
unfolding modify
put32 addr v = modify (λ s. record s { history = put addr v ∷ s.history })

-- The waits of delays.c, as events.
unfoldable pub wait_msec_st : ℕ → M (Unit {0})
unfolding modify
wait_msec_st n = modify (λ s. record s { history = waited_msec n ∷ s.history })

unfoldable pub wait_cycles : ℕ → M (Unit {0})
unfolding modify
wait_cycles n = modify (λ s. record s { history = waited_cycles n ∷ s.history })

-- `sd_err = ...`, and an int as an unsigned long.
unfoldable pub set_err : ℕ → M (Unit {0})
unfolding modify
set_err e = modify (λ s. record s { err = e })

abbrev pub to_long : ℕ → ℕ
to_long r = if ltb r (2 ^ 31) then r else r + (2 ^ 64 - 2 ^ 32)

abbrev pub has : ℕ → ℕ → Bool
has r mask = not (bit_and r mask == 0)

-- `while (test && cnt--) body`, and whether `cnt` is above 0 after it.
pub spin : (test : M Bool) (body : M (Unit {0})) → (cnt : ℕ) → M Bool
spin test body zero = do test; pure false
spin test body (suc cnt) =
    let rest = body >> spin test body cnt in do again ← test; if again then rest else pure true

pub is_inhibited : (mask : ℕ) → M Bool
is_inhibited mask = do
  status ← get32 emmc_status
  if has status mask
      then (do i ← get32 emmc_interrupt; pure (not (has i int_error_mask)))
      else pure false

unfoldable pub sd_status : (mask : ℕ) → M ℕ
sd_status mask = do
  in_time ← spin (is_inhibited mask) (wait_msec_st 1) 500000
  if in_time
      then (do i ← get32 emmc_interrupt; pure (if has i int_error_mask then sd_error else sd_ok))
      else pure sd_error

pub is_pending : (m : ℕ) → M Bool
is_pending m = do i ← get32 emmc_interrupt; pure (not (has i m))

unfoldable pub sd_int : (mask : ℕ) → M ℕ
sd_int mask = do
  in_time ← spin (is_pending (bit_or mask int_error_mask)) (wait_msec_st 1) 1000000
  r ← get32 emmc_interrupt
  if not in_time || has r int_cmd_timeout || has r int_data_timeout
      then put32 emmc_interrupt r >> pure sd_timeout
      else if has r int_error_mask
      then put32 emmc_interrupt r >> pure sd_error
      else put32 emmc_interrupt mask >> pure 0

-- What sd_cmd makes of the first word of the response.
pub read_response : (code arg r : ℕ) → M ℕ
read_response code arg r =
    if code == cmd_go_idle || code == cmd_app_cmd
    then pure 0
    else if code == bit_or cmd_app_cmd cmd_rspns_48
    then pure (bit_and r sr_app_cmd)
    else if code == cmd_send_op_cond
    then pure r
    else if code == cmd_send_if_cond
    then pure (if r == arg then sd_ok else sd_error)
    else if code == cmd_all_send_cid
    then (do
      r3 ← get32 emmc_resp3
      r2 ← get32 emmc_resp2
      r1 ← get32 emmc_resp1
      pure (bit_or (bit_or (bit_or r r3) r2) r1))
    else if code == cmd_send_rel_addr
    then (do
      set_err (
          bit_and
            (bit_or
              (bit_or (bit_or (bit_and r 0x1fff) (bit_and r 0x2000 * 2 ^ 6))
                (bit_and r 0x4000 * 2 ^ 8))
              (bit_and r 0x8000 * 2 ^ 8))
            cmd_errors_mask)
      pure (bit_and r cmd_rca_mask))
    else pure (bit_and r cmd_errors_mask)

-- sd_cmd from the test of SR_CMD_INHIBIT on, in parts.
pub pause : (code : ℕ) → M (Unit {0})
pause code =
    if code == cmd_send_op_cond
    then wait_msec_st 1000
    else if code == cmd_send_if_cond || code == cmd_app_cmd
    then wait_msec_st 100
    else pure tt

pub issue : (code arg : ℕ) → M (Unit {0})
issue code arg = do
  i ← get32 emmc_interrupt
  put32 emmc_interrupt i
  put32 emmc_arg1 arg
  put32 emmc_cmdtm code
  pause code

pub conclude : (code arg : ℕ) → M ℕ
conclude code arg = do
  r ← sd_int int_cmd_done
  if r == 0
      then (do resp ← get32 emmc_resp0; read_response code arg resp)
      else set_err (to_long r) >> pure 0

unfoldable pub send : (code arg : ℕ) → M ℕ
send code arg = do
  busy ← sd_status sr_cmd_inhibit
  if busy == 0 then issue code arg >> conclude code arg else set_err (to_long sd_timeout) >> pure 0

-- The call of sd_cmd for CMD_APP_CMD, which has no CMD_NEED_APP.
pub send_app : M ℕ
send_app = do
  rca ← gets (λ s. s.rca)
  set_err sd_ok
  send (bit_or cmd_app_cmd (if rca == 0 then 0 else cmd_rspns_48)) (rca % 2 ^ 32)

unfoldable pub sd_cmd : (code arg : ℕ) → M ℕ
sd_cmd code arg = do
  set_err sd_ok
  if has code cmd_need_app
      then (do
        r ← send_app
        rca ← gets (λ s. s.rca)
        if not (rca == 0) && r == 0
            then set_err (to_long sd_error) >> pure 0
            else send (bit_and code (complement 32 cmd_need_app)) arg)
      else send code arg
