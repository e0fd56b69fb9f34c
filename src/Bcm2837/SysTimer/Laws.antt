-- ===== src/Bcm2837/SysTimer/Laws.antt =====
-- What the VM sees of its timer: time stands still outside the VM, and compare registers match at
-- the next time that the counter shows their value.
use avisor.Prelude.{
  ℕ, zero, suc, ◌+◌, ◌-◌, ◌%◌, ◌^◌, ◌≤◌, ◌<◌, ◌≡◌, ◌⊎◌, inl, inr, arith, false, some, ◌==◌,
  ==_of_ne, List, [], ◌∷◌, get_or,
}
use avisor.Prelude.Bits.{bit_and_low, bit_and_field}
use avisor.Task.{Task}
use avisor.Board.{SysTimer}
use avisor.Bcm2837.SysTimer.{
  to_virtual_count, handle_systimer_read, calc_stc_64, entering_vm, leaving_vm, upcoming_of,
}

abbrev pub virtual_count : Task → ℕ → ℕ
virtual_count tsk count = to_virtual_count tsk.board_data.systimer count

-- The virtual counter that a VM sees when it is entered at `back` is the one that it saw when it
-- was left at `away`, whatever time passed between.
pub entering_vm-leaving_vm :
    (away back clo : ℕ) (tsk : Task)
    → away < 2 ^ 64
    → back < 2 ^ 64
    → tsk.board_data.systimer.offset < 2 ^ 64
    → virtual_count (entering_vm back back clo (leaving_vm away tsk)).0 back
      ≡ virtual_count tsk away
unfolding entering_vm leaving_vm
entering_vm-leaving_vm away back clo tsk h k l = omega arith

-- With one reading of the counter, the 64-bit compare value is the next time after now, at most a
-- full turn of the lower half ahead, at which the lower half of the virtual counter is `val`.
calc_stc_64_lem :
    (count : ℕ) (tsk : Task) (val : ℕ)
    → val < 2 ^ 32
    → virtual_count tsk count < 2 ^ 64 - 2 ^ 33
    → let stc = calc_stc_64 count count tsk val in
      (stc % 2 ^ 32 ≡ val)
      × (virtual_count tsk count < stc)
      × (stc ≤ virtual_count tsk count + 2 ^ 32)
unfolding calc_stc_64 handle_systimer_read
calc_stc_64_lem count tsk val h k =
    let v = virtual_count tsk count in
    let low = bit_and_low 32 v in let high = bit_and_field 32 32 v in ground (arith, low, high)

-- The wait is at most the old one, and at most the time to a deadline that is still to come.
upcoming_of-le :
    (now c_64 upcoming : ℕ)
    → now < 2 ^ 64
    → c_64 < 2 ^ 64
    → upcoming < 2 ^ 32
    → 0 < upcoming
    → (upcoming_of now c_64 upcoming ≤ upcoming)
      × (0 < upcoming_of now c_64 upcoming)
      × (c_64 ≤ now ⊎ upcoming_of now c_64 upcoming ≤ c_64 - now)
unfolding upcoming_of
upcoming_of-le now c_64 upcoming h k l m = (ground arith, ground arith, ground arith)

-- The fields of the timer fit their types.
pub record InRange (t : SysTimer) : Type 0 where
  pub c0_in : t.c0_64 < 2 ^ 64
  pub c1_in : t.c1_64 < 2 ^ 64
  pub c2_in : t.c2_64 < 2 ^ 64
  pub c3_in : t.c3_64 < 2 ^ 64

abbrev pub deadlines : SysTimer → List ℕ
deadlines t = t.c0_64 ∷ t.c1_64 ∷ t.c2_64 ∷ t.c3_64 ∷ []

-- The wait that `entering_vm` computes.
abbrev wait : ℕ → SysTimer → ℕ
wait now t =
    upcoming_of now t.c3_64
      (upcoming_of now t.c2_64 (upcoming_of now t.c1_64 (upcoming_of now t.c0_64 0xffffffff)))

-- What holds of each of four numbers holds of each position.
four :
    (P : ℕ → Type 0) {a b c d : ℕ} (i : ℕ)
    → i < 4
    → P a
    → P b
    → P c
    → P d
    → P (get_or (a ∷ b ∷ c ∷ d ∷ []) i 0)
four P zero h p q r s = p
four P (suc zero) h p q r s = q
four P (suc (suc zero)) h p q r s = r
four P (suc (suc (suc zero))) h p q r s = s
four P (suc (suc (suc (suc i)))) h p q r s = absurd (omega arith)

wait-le :
    (now i : ℕ) (t : SysTimer)
    → InRange t
    → now < 2 ^ 64
    → i < 4
    → let deadline = get_or (deadlines t) i 0 in
      (0 < wait now t) × (deadline ≤ now ⊎ wait now t ≤ deadline - now)
wait-le now i t r h k =
    let (le0, pos0, at0) =
      upcoming_of-le now t.c0_64 0xffffffff h r.c0_in (omega arith) (omega arith) in
    let (le1, pos1, at1) = upcoming_of-le now t.c1_64 _ h r.c1_in (omega arith) pos0 in
    let (le2, pos2, at2) = upcoming_of-le now t.c2_64 _ h r.c2_in (omega arith) pos1 in
    let (le3, pos3, at3) = upcoming_of-le now t.c3_64 _ h r.c3_in (omega arith) pos2 in
    (
      pos3,
      four (λ c. c ≤ now ⊎ wait now t ≤ c - now) i k (ground arith) (ground arith) (ground arith)
          (ground arith),
    )

-- For each compare time of a VM that is entered which is still to come at the second reading of the
-- counter, and within reach of the 32-bit compare register, the compare register of the physical
-- timer is set above the reading of TIMER_CLO by at most the ticks that were left to that time.
pub entering_vm-wakes :
    (count₁ count₂ clo i : ℕ) (tsk : Task)
    → InRange tsk.board_data.systimer
    → i < 4
    → let now = virtual_count (entering_vm count₁ count₂ clo tsk).0 count₂ in
      let deadline = get_or (deadlines tsk.board_data.systimer) i 0 in
      now < deadline
      → deadline - now < 0xffffffff
      → (d : ℕ) × (0 < d)
        × (d ≤ deadline - now)
        × ((entering_vm count₁ count₂ clo tsk).1 ≡ some ((clo + d) % 2 ^ 32))
unfolding entering_vm
entering_vm-wakes count₁ count₂ clo i tsk r h k l =
    let t = tsk.board_data.systimer in
    let now = virtual_count (entering_vm count₁ count₂ clo tsk).0 count₂ in
    let (pos, near) = wait-le now i t r (omega arith) h in
    let soon : wait now t ≤ get_or (deadlines t) i 0 - now = elim near [
      | inl past ↦ absurd (omega arith)
      | inr le ↦ le
    ] in
    let real : (wait now t == 0xffffffff) ≡ false =
      ==_of_ne (wait now t) 0xffffffff (λ e. omega arith) in
    (wait now t, pos, soon, rw real)
