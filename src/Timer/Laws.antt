-- ===== src/Timer/Laws.antt =====
-- What get_system_timer returns.
use avisor.Prelude.{ℕ, ◌+◌, ◌*◌, ◌/◌, ◌^◌, ◌≤◌, ◌<◌, ◌≡◌, ◌==◌, arith, Bool-cases, inl, inr}
use avisor.Prelude.Bits.{bit_or_fields}
use Prim.Native.Nat.{bit_or}
use avisor.Timer.{get_system_timer, read_chi, read_clo}

halves : (c d : ℕ) → bit_or (read_chi c * 2 ^ 32) (read_clo d) ≡ read_chi c * 2 ^ 32 + read_clo d
halves c d = bit_or_fields 32 (read_chi c) (read_clo d) (omega arith)

-- The counter only grows, its high half changes at most once while it is read, and it does not
-- overflow: what get_system_timer returns lies between the counter's first value and its last.
pub get_system_timer_lem :
    (count : ℕ → ℕ)
    → count 0 ≤ count 1
    → count 1 ≤ count 2
    → count 2 ≤ count 3
    → count 3 ≤ count 4
    → count 4 < 2 ^ 64
    → count 4 / 2 ^ 32 ≤ count 0 / 2 ^ 32 + 1
    → (count 0 ≤ get_system_timer count) × (get_system_timer count ≤ count 4)
unfolding get_system_timer
get_system_timer_lem count a b c d e f =
    elim (Bool-cases (read_chi (count 0) == read_chi (count 2))) [
      | inl same ↦ rw same (rw (halves (count 0) (count 1)) (ground arith, ground arith))
      | inr changed ↦ rw changed (rw (halves (count 3) (count 4)) (ground arith, ground arith))
    ]
