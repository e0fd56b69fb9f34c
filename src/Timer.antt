-- ===== src/Timer.antt =====
-- hypervisor/boards/raspi/timer.c: the reading of the system timer. The counter is an argument: the
-- value it has at each read of one of its two halves, in the order of the reads.
mod Tests
pub mod Laws
use Prim.Native.Nat.{bit_or}
use avisor.Prelude.{ℕ, ◌*◌, ◌/◌, ◌%◌, ◌^◌, ◌==◌, if◌then◌else◌}

-- What TIMER_CHI and TIMER_CLO hold.
abbrev pub read_chi : ℕ → ℕ
read_chi count = count / 2 ^ 32 % 2 ^ 32

abbrev pub read_clo : ℕ → ℕ
read_clo count = count % 2 ^ 32

pub get_physical_timer_count : (count : ℕ → ℕ) → ℕ
get_physical_timer_count count = bit_or (read_clo (count 0)) (read_chi (count 1) * 2 ^ 32)

unfoldable pub get_system_timer : (count : ℕ → ℕ) → ℕ
get_system_timer count =
    if read_chi (count 0) == read_chi (count 2)
    then bit_or (read_chi (count 0) * 2 ^ 32) (read_clo (count 1))
    else bit_or (read_chi (count 3) * 2 ^ 32) (read_clo (count 4))
