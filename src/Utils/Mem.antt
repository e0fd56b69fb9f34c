-- ===== src/Utils/Mem.antt =====
-- hypervisor/common/utils.c: the functions on memory. Memory is a function from addresses to bytes;
-- memcpy is assembly, and a parameter. The pointers that memset and memmove return are left out.
mod Tests
pub mod Laws
pub mod Strings
use avisor.Prelude.{
  ℕ, zero, suc, ◌+◌, ◌-◌, ◌%◌, ◌^◌, Bool, true, false, not, Option, none, some, ◌==◌, if◌then◌else◌,
  ltb,
}
use avisor.Utils.Str.{difference}

abbrev pub Memory : Type 0
Memory = ℕ → ℕ

abbrev pub put_byte : Memory → ℕ → ℕ → Memory
put_byte mem a v = λ b. if b == a then v else mem b

pub memset : Memory → (s c n : ℕ) → Memory
memset mem s c zero = mem
memset mem s c (suc n) = memset (put_byte mem s (c % 2 ^ 8)) (s + 1) c n

pub memcmp : Memory → (p1 p2 n : ℕ) → ℕ
memcmp mem p1 p2 zero = 0
memcmp mem p1 p2 (suc n) =
    let rest = memcmp mem (p1 + 1) (p2 + 1) n in
    if mem p1 == mem p2 then rest else difference (mem p1) (mem p2)

-- The address, or none for NULL.
pub memchr : Memory → (s c n : ℕ) → Option ℕ
memchr mem s c zero = none
memchr mem s c (suc n) = let rest = memchr mem (s + 1) c n in if mem s == c then some s else rest

-- The loop of `memmove`, which copies the last byte first.
pub copy_back : Memory → (dest src n : ℕ) → Memory
copy_back mem dest src zero = mem
copy_back mem dest src (suc n) = copy_back (put_byte mem (dest + n) (mem (src + n))) dest src n

pub memmove : (memcpy : Memory → (dest src n : ℕ) → Memory) → Memory → (dest src n : ℕ) → Memory
unfolding copy_back
memmove memcpy mem dest src n =
    if ltb dest (src + n) then copy_back mem dest src n else memcpy mem dest src n

-- The loop of `strcpy`, for at most `rounds` characters; none when it goes on.
pub strcpy : (rounds : ℕ) → Memory → (dest src : ℕ) → Option Memory
strcpy zero mem dest src = none
strcpy (suc rounds) mem dest src =
    let mem' = put_byte mem dest (mem src) in
    let rest = strcpy rounds mem' (dest + 1) (src + 1) in if mem' src == 0 then some mem' else rest

-- The loop of `strncat` and the zero after it, with the length of `dest`.
pub append_bytes : Memory → (dest src destlen i n : ℕ) → Memory
append_bytes mem dest src destlen i zero = put_byte mem (dest + destlen + i) 0
append_bytes mem dest src destlen i (suc n) =
    append_bytes (put_byte mem (dest + destlen + i) (mem (src + i))) dest src destlen (i + 1) n
