-- ===== src/Sd/Disk/Errors.antt =====
-- What disk_read makes of an error.
use avisor.Prelude.{ℕ, ◌*◌, ◌%◌, ◌^◌, ◌≡◌, refl, ◌<◌, inl, inr, arith, leb, false}
use avisor.Sd.{Hardware, Sd, ◌>>=◌, pure}
use avisor.Sd.Block.Read.{sd_readblock-IsRead}
use avisor.Sd.Disk.{disk_read, res_ok}

not_negative : (num r : ℕ) → num < 2 ^ 22 → (r ≡ num * 512 % 2 ^ 32) → leb (2 ^ 31) r ≡ false
not_negative num r h e = ground arith

-- Reading up to 2 ^ 22 - 1 sectors, disk_read reports success on every controller and from every
-- state, also where sd_readblock has failed.
pub disk_read-ok :
    (sector count : ℕ) (hw : Hardware) (s : Sd)
    → 0 < count
    → count < 2 ^ 22
    → (disk_read sector count hw s).0.0 ≡ res_ok
unfolding disk_read ◌>>=◌ pure
disk_read-ok sector count hw s some_sector few =
    elim (sd_readblock-IsRead (sector % 2 ^ 32) count hw s some_sector).result [
      | inl (e, _, _, _) ↦ rw (not_negative count _ few e) refl
      | inr (e, _) ↦ rw e refl
    ]
