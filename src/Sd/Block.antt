-- ===== src/Sd/Block.antt =====
-- hypervisor/boards/raspi/sd.c: sd_readblock. Beside its result it returns the words that it has
-- written to the buffer.
pub mod Ran
pub mod Transfer
pub mod Loop
pub mod Read
use avisor.Prelude.{
  ℕ, zero, suc, ◌+◌, ◌*◌, ◌%◌, ◌^◌, Bool, true, false, not, ◌&&◌, List, [], ◌∷◌, ◌++◌, ◌==◌,
  if◌then◌else◌, ltb,
}
use Prim.Native.Nat.{bit_or}
use avisor.Sd.Registers.{
  emmc_blksizecnt, emmc_data, cmd_stop_trans, cmd_read_single, cmd_read_multi, cmd_set_blockcnt,
  sr_dat_inhibit, int_read_rdy, scr_supp_set_blkcnt, scr_supp_ccs, sd_timeout, sd_ok,
}
use avisor.Sd.{
  M, ◌>>=◌, ◌>>◌, pure, gets, get32, put32, set_err, to_long, has, sd_status, sd_int, sd_cmd,
}

-- The tests of sd_scr[0] and of sd_err.
abbrev pub ccs : M Bool
ccs = gets (λ s. has s.scr0 scr_supp_ccs)

abbrev pub set_blkcnt : M Bool
set_blkcnt = gets (λ s. has s.scr0 scr_supp_set_blkcnt)

abbrev pub no_err : M Bool
no_err = gets (λ s. s.err == sd_ok)

-- sd_cmd and the test of sd_err after it.
pub checked : (code arg : ℕ) → M Bool
checked code arg = do sd_cmd code arg; no_err

-- What precedes the loop, and whether the loop is reached.
pub announce : (num : ℕ) (counted : Bool) → M Bool
announce num counted = if ltb 1 num && counted then checked cmd_set_blockcnt num else pure true

pub start_whole : (lba num : ℕ) → M Bool
start_whole lba num = do
  counted ← set_blkcnt
  announced ← announce num counted
  if announced
      then (do
        put32 emmc_blksizecnt (bit_or (num * 2 ^ 16 % 2 ^ 32) 512)
        checked (if num == 1 then cmd_read_single else cmd_read_multi) lba)
      else pure false

pub start_read : (lba num : ℕ) → M Bool
start_read lba num = do
  whole ← ccs
  if whole then start_whole lba num else (do put32 emmc_blksizecnt (bit_or (2 ^ 16) 512); pure true)

pub read_words : ℕ → M (List ℕ)
read_words zero = pure []
read_words (suc d) = do w ← get32 emmc_data; words ← read_words d; pure (w ∷ words)

pub ask : (lba c : ℕ) → M Bool
ask lba c = do
  whole ← ccs
  if whole then pure true else checked cmd_read_single ((lba + c) % 2 ^ 32 * 512 % 2 ^ 32)

-- The loop from block `c` on, for `left` blocks: whether it ended without an error, and the words.
pub read_blocks : (lba left c : ℕ) → M (Bool × List ℕ)
read_blocks lba zero c = pure (true, [])
read_blocks lba (suc left) c =
    let rest = read_blocks lba left (c + 1) in
    do
      asked ← ask lba c
      if asked
          then (do
            r ← sd_int int_read_rdy
            if r == 0
                then (do words ← read_words 128; blocks ← rest; pure (blocks.0, words ++ blocks.1))
                else set_err (to_long r) >> pure (false, []))
          else pure (false, [])

-- What follows the loop.
pub stop : (num : ℕ) → M ℕ
stop num = do
  whole ← ccs
  counted ← set_blkcnt
  fine ← if ltb 1 num && not counted && whole then checked cmd_stop_trans 0 else no_err
  pure (if fine then num * 512 % 2 ^ 32 else 0)

pub transfer : (lba num : ℕ) → M (ℕ × List ℕ)
transfer lba num = do
  started ← start_read lba num
  if started
      then (do
        blocks ← read_blocks lba num 0
        if blocks.0 then (do r ← stop num; pure (r, blocks.1)) else pure (0, blocks.1))
      else pure (0, [])

unfoldable pub sd_readblock : (lba num : ℕ) → M (ℕ × List ℕ)
sd_readblock lba num = do
  busy ← sd_status sr_dat_inhibit
  if not (busy == 0)
      then set_err (to_long sd_timeout) >> pure (0, [])
      else transfer lba (if ltb num 1 then 1 else num)
