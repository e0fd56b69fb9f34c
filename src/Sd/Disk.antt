-- ===== src/Sd/Disk.antt =====
-- hypervisor/fs/diskio.c: the glue between FatFs and the card.
pub mod Errors
use avisor.Prelude.{ℕ, ◌%◌, ◌^◌, Bool, Option, none, some, List, if◌then◌else◌, leb, ltb, map}
use avisor.Sd.{Sd, M, ◌>>=◌, ◌>>◌, pure}
use avisor.Sd.Init.{sd_init}
use avisor.Sd.Block.{sd_readblock}

abbrev pub res_ok : ℕ
res_ok = 0

abbrev pub res_error : ℕ
res_error = 1

abbrev pub res_notsup : ℕ
res_notsup = 5

abbrev pub sta_ok : ℕ
sta_ok = 0x00

-- The sign of an int.
abbrev pub is_negative : ℕ → Bool
is_negative r = leb (2 ^ 31) r

-- The new `stat` and the result, none while sd_init has not returned.
pub initialized : (stat : ℕ) → Option ℕ → Option (ℕ × ℕ)
initialized stat none = none
initialized stat (some r) = some (if is_negative r then (stat, res_error) else (sta_ok, res_ok))

pub disk_initialize : (stat fuel : ℕ) → M (Option (ℕ × ℕ))
disk_initialize stat fuel = do r ← sd_init fuel; pure (initialized stat r)

pub disk_read : (sector count : ℕ) → M (ℕ × List ℕ)
disk_read sector count = do
  r ← sd_readblock (sector % 2 ^ 32) count
  pure (if is_negative r.0 then res_error else res_ok, r.1)

pub disk_write : M ℕ
disk_write = pure res_notsup

pub disk_ioctl : M ℕ
disk_ioctl = pure res_notsup
