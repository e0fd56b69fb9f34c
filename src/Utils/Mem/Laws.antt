-- ===== src/Utils/Mem/Laws.antt =====
-- What the functions on memory leave.
use avisor.Prelude.{
  ℕ, zero, suc, ◌+◌, ◌-◌, ◌≤◌, ◌≡◌, ◌∙◌, ◌&&◌, if◌then◌else◌, ltb, leb, arith, Bool-cases, inl, inr,
}
use avisor.Utils.Mem.{Memory, put_byte, copy_back, memmove}

-- The bytes of a region, moved.
abbrev pub moved : Memory → (dest src n : ℕ) → ℕ → ℕ
moved mem dest src n a = if leb dest a && ltb a (dest + n) then mem (src + (a - dest)) else mem a

copy_back_lem :
    (mem : Memory) (dest src n a : ℕ)
    → src ≤ dest
    → copy_back mem dest src n a ≡ moved mem dest src n a
unfolding copy_back
copy_back_lem mem dest src zero a h = ground arith
copy_back_lem mem dest src (suc n) a h =
    copy_back_lem (put_byte mem (dest + n) (mem (src + n))) dest src n a h ∙ ground arith

-- Where the destination is not below the source, memmove moves the bytes, given a memcpy that does
-- so between regions that do not overlap.
memmove_lem :
    (memcpy : Memory → (dest src n : ℕ) → Memory)
    → ((mem : Memory) (dest src n a : ℕ)
        → src + n ≤ dest
        → memcpy mem dest src n a ≡ moved mem dest src n a)
    → (mem : Memory) (dest src n a : ℕ) → src ≤ dest
    → memmove memcpy mem dest src n a ≡ moved mem dest src n a
unfolding memmove
memmove_lem memcpy copies mem dest src n a h = elim (Bool-cases (ltb dest (src + n))) [
  | inl near ↦ rw near (copy_back_lem mem dest src n a h)
  | inr far ↦ rw far (copies mem dest src n a (ground arith))
]
