-- ===== src/Delays/Tests.antt =====
-- The waits, run.
use avisor.Prelude.{ℕ, ◌+◌, ◌*◌, ◌≡◌, ◌≤◌, ◌≢◌, refl, some, arith}
use avisor.Timer.{get_system_timer}
use avisor.Delays.{wait_cycles, wait_until, wait_msec, wait_msec_st}
use avisor.Delays.Returns.{AreReadings, wait_msec_st_lem}

-- 20 counts for a call of get_system_timer.
abbrev running : ℕ → ℕ → ℕ
running i k = 20 * i + k + 1

cycles : wait_cycles 3 ≡ 3
unfolding wait_cycles
cycles = refl

-- At 19.2 MHz, 10 microseconds are 192 counts: the second reading after them, of 96 counts each.
waits : wait_msec 5 19200000 (λ i. 96 * i) 10 ≡ some 2
unfolding wait_msec wait_until
waits = refl

-- The timer as qemu emulates it.
stands : wait_msec_st 1 (λ i k. 0) 50 ≡ some 0
unfolding wait_msec_st wait_until get_system_timer
stands = refl

-- Below 1 kHz there is no wait.
slow : wait_msec 5 900 (λ i. i) 1000000 ≡ some 1
unfolding wait_msec wait_until
slow = refl

running-AreReadings : AreReadings running 51
running-AreReadings = record {
  each = λ i le. record {
    first = omega arith;
    second = omega arith;
    third = omega arith;
    fourth = omega arith;
    fits = omega arith;
    once = omega arith;
  };
  rise = λ i lt. omega arith;
}

starts : get_system_timer (running 0) ≢ 0
unfolding get_system_timer
starts = λ e. omega (arith, e)

wait_msec_st_lem_example :
    (j : ℕ) × (wait_msec_st 51 running 50 ≡ some j) × (running 0 0 + 50 ≤ running j 4)
wait_msec_st_lem_example = wait_msec_st_lem running 50 running-AreReadings (omega arith) starts
