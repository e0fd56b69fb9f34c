-- ===== src/Delays.antt =====
-- hypervisor/common/delays.c: the waits. A counter is an argument: what each reading of it gives, in
-- their order. The result is the reading that ended the wait; none where `rounds` were not enough.
pub mod Returns
mod Tests
use avisor.Prelude.{
  ℕ, zero, suc, ◌+◌, ◌*◌, ◌/◌, ◌%◌, ◌^◌, Option, none, some, ◌==◌, if◌then◌else◌, ltb,
}
use avisor.Timer.{get_system_timer}

-- The number of `nop`s that wait_cycles executes.
pub wait_cycles : (n : ℕ) → ℕ
wait_cycles zero = 0
wait_cycles (suc n) = wait_cycles n + 1

-- Readings, from reading `i` on, while they are below `t`.
pub wait_until : (rounds : ℕ) → (read : ℕ → ℕ) → (i t : ℕ) → Option ℕ
wait_until zero read i t = none
wait_until (suc rounds) read i t =
    let rest = wait_until rounds read (i + 1) t in if ltb (read i) t then rest else some i

-- `f` is what cntfrq_el0 holds, `read` gives the readings of cntpct_el0.
pub wait_msec : (rounds f : ℕ) → (read : ℕ → ℕ) → (n : ℕ) → Option ℕ
wait_msec rounds f read n =
    wait_until rounds read 1 ((read 0 + f / 1000 * n % 2 ^ 64 / 1000) % 2 ^ 64)

-- `count` gives, for each call of get_system_timer, the values of the counter at its reads.
pub wait_msec_st : (rounds : ℕ) → (count : ℕ → ℕ → ℕ) → (n : ℕ) → Option ℕ
wait_msec_st rounds count n =
    let t = get_system_timer (count 0) in
    if t == 0
    then some 0
    else wait_until rounds (λ i. get_system_timer (count i)) 1 ((t + n) % 2 ^ 64)
