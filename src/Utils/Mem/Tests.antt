-- ===== src/Utils/Mem/Tests.antt =====
-- The functions on memory at concrete addresses.
use avisor.Prelude.{ℕ, ◌+◌, ◌≡◌, refl, none, some}
use avisor.Utils.Mem.{Memory, memset, memcmp, memchr, copy_back, memmove}

abbrev no_copy : Memory → ℕ → ℕ → ℕ → Memory
no_copy mem dest src n = mem

-- Byte a holds 10 + a.
abbrev counted : Memory
counted a = 10 + a

memset_test : memset counted 4 0x1ff 2 5 ≡ 255
unfolding memset
memset_test = refl

memcmp_test : memcmp (memset counted 4 10 1) 0 4 2 ≡ 4294967292
unfolding memcmp memset
memcmp_test = refl

memchr_test : memchr counted 2 15 8 ≡ some 5
unfolding memchr
memchr_test = refl

memchr-missing_test : memchr counted 2 15 3 ≡ none
unfolding memchr
memchr-missing_test = refl

-- Two bytes moved one place down: the second is copied first, and then read as the first.
memmove-down_test : memmove no_copy counted 3 4 2 3 ≡ 15
unfolding memmove copy_back
memmove-down_test = refl
