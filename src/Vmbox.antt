-- ===== src/Vmbox.antt =====
-- hypervisor/emulator/raspi/vmbox.c: the mailbox through which a VM asks the firmware for
-- properties. Its state is global to all VMs.
mod Tests
pub mod Laws
use Prim.Native.Nat.{bit_and, bit_or}
use avisor.Prelude.{
  ℕ, ◌+◌, ◌-◌, ◌*◌, ◌/◌, ◌%◌, ◌^◌, Bool, true, false, ◌&&◌, ◌==◌, if◌then◌else◌, leb,
}
use avisor.Prelude.Bits.{complement}
use avisor.Pages.{Machine, store}
use avisor.Stage2.{Mm, check_task_page_mapped}
use avisor.Board.{pbase}

-- `mbox` as an address, 0 for NULL; `mbox_val`; and the static `empty` of handle_mbox_read.
pub record Mbox : Type 0 where
  pub buffer : ℕ
  pub val : ℕ
  pub empty : ℕ

-- VIDEOCORE_MBOX and the addresses and flags after it
abbrev pub mbox_read : ℕ
mbox_read = pbase + 0xB880

abbrev pub mbox_status : ℕ
mbox_status = mbox_read + 0x18

abbrev pub mbox_write : ℕ
mbox_write = mbox_read + 0x20

abbrev pub mbox_response : ℕ
mbox_response = 0x80000000

abbrev pub mbox_empty : ℕ
mbox_empty = 0x40000000

-- MBOX_REQUEST, MBOX_CHAN_TAGS and the tags that are answered
abbrev pub mbox_request : ℕ
mbox_request = 0

abbrev pub mbox_chan_tags : ℕ
mbox_chan_tags = 8

abbrev pub get_board_serial : ℕ
get_board_serial = 0x10004

abbrev pub get_arm_memory : ℕ
get_arm_memory = 0x10005

abbrev pub set_power_state : ℕ
set_power_state = 0x28001

abbrev pub initial_mbox : Mbox
initial_mbox = record { buffer = 0; val = 0; empty = mbox_empty }

-- The 32-bit word at an address, which is a half of a 64-bit word of the memory.
abbrev pub load32 : (ℕ → ℕ) → ℕ → ℕ
load32 mem a = if a % 8 == 0 then mem a % 2 ^ 32 else mem (a - 4) / 2 ^ 32

abbrev pub store32 : (ℕ → ℕ) → ℕ → ℕ → ℕ → ℕ
store32 mem a v =
    if a % 8 == 0
    then store mem a (mem a / 2 ^ 32 * 2 ^ 32 + v)
    else store mem (a - 4) (v * 2 ^ 32 + mem (a - 4) % 2 ^ 32)

-- `mbox[i]`
abbrev pub word : Mbox → (ℕ → ℕ) → ℕ → ℕ
word b mem i = load32 mem (b.buffer + 4 * i)

abbrev pub set_word : Mbox → (ℕ → ℕ) → ℕ → ℕ → ℕ → ℕ
set_word b mem i v = store32 mem (b.buffer + 4 * i) v

-- The two assignments that every answer starts with.
answer : Mbox → (ℕ → ℕ) → ℕ → ℕ
answer b mem =
    let mem₁ = set_word b mem 1 mbox_response in
    set_word b mem₁ 4 (bit_or mbox_response (word b mem₁ 3))

pub emulate_mbox_read : Mbox → (ℕ → ℕ) → ℕ → ℕ
unfolding answer
emulate_mbox_read b mem =
    if (bit_and b.val 0xf == mbox_chan_tags) && (word b mem 1 == mbox_request)
    then if word b mem 2 == get_arm_memory
      then set_word b (set_word b (answer b mem) 5 0x0) 6 0x3c000000
      else if word b mem 2 == get_board_serial
      then set_word b (set_word b (answer b mem) 5 0x0) 6 0x0
      else if word b mem 2 == set_power_state
      then set_word b (answer b mem) 6 0x1
      else mem
    else mem

-- bus_to_phys, of which `~` is that of an `unsigned int`
abbrev pub bus_to_phys : ℕ → ℕ
bus_to_phys bus = bit_and bus 0x3fffffff

-- `gv2m` is what gvirt_to_maddr finds for an address of the VM, or 0. The first part is false when
-- the buffer is not mapped, and PANIC ends the task; the result of the function is not used.
pub emulate_mbox_write : (gv2m : ℕ → ℕ) → Machine → Mm → Mbox → ℕ → Bool × Mbox × Mm × Machine
emulate_mbox_write gv2m m mm b val =
    let gva = bit_and (bus_to_phys val) (complement 64 0xf) in
    let (mapped, mm', m') = check_task_page_mapped m mm gva in
    let b' = record b { val = val % 2 ^ 32 } in
    (mapped, (if mapped then record b' { buffer = gv2m gva } else b'), mm', m')

abbrev pub is_mbox_addr : ℕ → Bool
is_mbox_addr addr = leb mbox_read addr && leb addr mbox_write

pub handle_mbox_read : Machine → Mbox → ℕ → ℕ × Mbox × Machine
unfolding emulate_mbox_read
handle_mbox_read m b addr =
    if addr == mbox_status
    then (
      b.empty,
      record b { empty = if bit_and b.empty mbox_empty == 0 then mbox_empty else 0 },
      m,
    )
    else if addr == mbox_read
    then (b.val, b, record m { mem = emulate_mbox_read b m.mem })
    else (0, b, m)

pub handle_mbox_write :
    (gv2m : ℕ → ℕ) → Machine → Mm → Mbox → (addr val : ℕ) → Bool × Mbox × Mm × Machine
unfolding emulate_mbox_write
handle_mbox_write gv2m m mm b addr val =
    if addr == mbox_write then emulate_mbox_write gv2m m mm b val else (true, b, mm, m)
