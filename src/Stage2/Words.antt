-- ===== src/Stage2/Words.antt =====
-- Descriptors, table indices and page addresses as arithmetic.
use Prim.Native.Nat.{bit_and, bit_or}
use avisor.Prelude.{ℕ, ◌+◌, ◌*◌, ◌/◌, ◌%◌, ◌^◌, ◌<◌, ◌≡◌, ◌∙◌, ap, arith}
use avisor.Prelude.Bits.{bit_and_low, bit_and_field, bit_or_fields}
use avisor.Stage2.{page_mask, table_index, ptrs_per_table}

pub table_index-mod : (shift va : ℕ) → table_index shift va ≡ va / 2 ^ shift % 512
table_index-mod shift va = bit_and_low 9 (va / 2 ^ shift)

pub table_index-lt : (shift va : ℕ) → table_index shift va < ptrs_per_table
table_index-lt shift va = omega (arith, table_index-mod shift va)

-- The low twelve bits of a descriptor of an aligned page are its flags.
pub descriptor :
    (page flags : ℕ) → page % 4096 ≡ 0 → flags < 4096 → bit_or page flags ≡ page + flags
descriptor page flags aligned small =
    ap (λ (t : ℕ). bit_or t flags) whole ∙ bit_or_fields 12 (page / 4096) flags small ∙ omega arith
  where
    whole : page ≡ page / 4096 * 2 ^ 12
    whole = omega arith

pub page_of_descriptor :
    (page flags : ℕ)
    → page % 4096 ≡ 0
    → flags < 4096
    → page < 2 ^ 48
    → bit_and (page + flags) page_mask ≡ page
page_of_descriptor page flags aligned small low = bit_and_field 12 52 (page + flags) ∙ omega arith
