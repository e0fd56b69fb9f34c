-- ===== src/Bcm2837/SysTimer.antt =====
-- hypervisor/emulator/raspi/bcm2837.c: the system timer, which stands still while the VM does not
-- run. Each reading of the physical counter is an argument.
pub mod Laws
use Prim.Native.Nat.{bit_and, bit_or}
use avisor.Prelude.{
  ℕ, ◌+◌, ◌-◌, ◌*◌, ◌/◌, ◌%◌, ◌^◌, Bool, true, false, not, ◌&&◌, Option, none, some, ◌==◌,
  if◌then◌else◌, ltb, leb, int_of,
}
use avisor.Prelude.Bits.{complement}
use avisor.Task.{Task}
use avisor.Board.{
  BoardState, SysTimer, timer_cs, timer_clo, timer_chi, timer_c0, timer_c1, timer_c2, timer_c3,
}
use avisor.Bcm2837.IntCtrl.{u32}
use avisor.Pages.{u64}

-- ADDR_IN_SYSTIMER
abbrev pub addr_in_systimer : ℕ → Bool
addr_in_systimer a = leb timer_cs a && leb a timer_c3

-- TO_VIRTUAL_COUNT
abbrev pub to_virtual_count : SysTimer → ℕ → ℕ
to_virtual_count t p = u64 (p + 2 ^ 64 - t.offset)

pub handle_systimer_read : (count : ℕ) → Task → ℕ → ℕ
handle_systimer_read count tsk addr =
    let t = tsk.board_data.systimer in
    if addr == timer_cs
    then t.cs
    else if addr == timer_clo
    then bit_and (to_virtual_count t count) 0xffffffff
    else if addr == timer_chi
    then to_virtual_count t count / 2 ^ 32
    else if addr == timer_c0
    then t.c0
    else if addr == timer_c1
    then t.c1
    else if addr == timer_c2
    then t.c2
    else if addr == timer_c3
    then t.c3
    else 0

-- The counter is read once for `current_clo` and once more for the upper half.
pub calc_stc_64 : (count₁ count₂ : ℕ) → Task → ℕ → ℕ
unfolding handle_systimer_read
calc_stc_64 count₁ count₂ tsk val =
    let current_clo = u32 (handle_systimer_read count₁ tsk timer_clo) in
    let upper = bit_and (to_virtual_count tsk.board_data.systimer count₂) 0xffffffff00000000 in
    if ltb current_clo val then u64 (upper + val) else u64 (upper + val + 0x100000000)

abbrev pub with_systimer : Task → SysTimer → Task
with_systimer tsk t = record tsk { board_data = record (tsk.board_data) { systimer = t } }

pub handle_systimer_write : (count₁ count₂ : ℕ) → Task → (addr val : ℕ) → Task
unfolding calc_stc_64
handle_systimer_write count₁ count₂ tsk addr val =
    let t = tsk.board_data.systimer in
    let stc = calc_stc_64 count₁ count₂ tsk val in
    if addr == timer_cs
    then with_systimer tsk (record t { cs = u32 (bit_and t.cs (complement 64 val)) })
    else if addr == timer_c0
    then with_systimer tsk (record t { c0 = u32 val; c0_64 = stc })
    else if addr == timer_c1
    then with_systimer tsk (record t { c1 = u32 val; c1_64 = stc })
    else if addr == timer_c2
    then with_systimer tsk (record t { c2 = u32 val; c2_64 = stc })
    else if addr == timer_c3
    then with_systimer tsk (record t { c3 = u32 val; c3_64 = stc })
    else tsk

pub check_expiration : (stc64 cvt : ℕ) → ℕ
check_expiration stc64 cvt = int_of (leb stc64 cvt)

-- `if (c_64 > current_virtual_count && upcoming > c_64 - current_virtual_count)`
upcoming_of : (now c_64 upcoming : ℕ) → ℕ
upcoming_of now c_64 upcoming =
    let cx = u64 (c_64 + 2 ^ 64 - now) in
    if ltb now c_64 && ltb cx upcoming then u32 cx else upcoming

-- What the task's timer becomes, and the value that goes to the physical compare register, if any.
-- `count₁` and `count₂` are the readings of the counter, `clo` that of the physical TIMER_CLO.
unfoldable pub entering_vm : (count₁ count₂ clo : ℕ) → Task → Task × Option ℕ
unfolding check_expiration upcoming_of
entering_vm count₁ count₂ clo tsk =
    let t₀ = tsk.board_data.systimer in
    let lapse = u64 (count₁ + 2 ^ 64 - t₀.last_physical_count) in
    let t = record t₀ { offset = u64 (t₀.offset + lapse) } in
    let now = to_virtual_count t count₂ in
    let matched =
      bit_or
        (bit_or (bit_or (check_expiration t.c0_64 now) (check_expiration t.c1_64 now * 2))
          (check_expiration t.c2_64 now * 2 ^ 2))
        (check_expiration t.c3_64 now * 2 ^ 3) in
    let upcoming =
      upcoming_of now t.c3_64
        (upcoming_of now t.c2_64 (upcoming_of now t.c1_64 (upcoming_of now t.c0_64 0xffffffff))) in
    let fired = bit_and (complement 32 t.cs) matched in
    (
      with_systimer tsk (record t { cs = bit_or t.cs fired }),
      (if upcoming == 0xffffffff then none else some (u32 (clo + upcoming))),
    )

unfoldable pub leaving_vm : (count : ℕ) → Task → Task
leaving_vm count tsk =
    with_systimer tsk (record (tsk.board_data.systimer) { last_physical_count = count })
