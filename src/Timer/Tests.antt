-- ===== src/Timer/Tests.antt =====
-- The timer read across a carry of its low half.
use avisor.Prelude.{ℕ, zero, suc, ◌+◌, ◌≤◌, ◌≡◌, refl, arith}
use avisor.Timer.{get_system_timer, get_physical_timer_count}
use avisor.Timer.Laws.{get_system_timer_lem}

-- The low half overflows after the first read.
abbrev carry : ℕ → ℕ
carry zero = 0xffffffff
carry (suc n) = 0x100000000 + n

get_system_timer_test : get_system_timer carry ≡ 0x100000003
unfolding get_system_timer
get_system_timer_test = refl

get_physical_timer_count_test : get_physical_timer_count carry ≡ 0x1ffffffff
unfolding get_physical_timer_count
get_physical_timer_count_test = refl

get_system_timer_lem_example :
    (carry 0 ≤ get_system_timer carry) × (get_system_timer carry ≤ carry 4)
get_system_timer_lem_example =
    get_system_timer_lem carry (omega arith) (omega arith) (omega arith) (omega arith) (omega arith)
      (omega arith)
