-- ===== src/Bcm2837/Init.antt =====
-- hypervisor/emulator/raspi/bcm2837.c: `bcm2837_initialize` gives a new VM its board.
pub mod Laws
use avisor.Prelude.{ℕ, zero, suc, ◌+◌, ◌-◌, ◌*◌, ◌/◌, if◌then◌else◌, ltb}
use avisor.Pages.{Machine, page_size, allocate_page}
use avisor.Stage2.{Mm, set_task_page_notaccessable}
use avisor.Board.{BoardState, SysTimer, initial_state, pbase}
use avisor.Task.{Task}

-- PHYS_MEMORY_SIZE and SECTION_SIZE
abbrev pub phys_memory_size : ℕ
phys_memory_size = 0x40000000

abbrev pub section_size : ℕ
section_size = 512 * page_size

abbrev pub devices_end : ℕ
devices_end = phys_memory_size - section_size

-- The loop, for at most `rounds` rounds.
pub trap_pages : (rounds : ℕ) → Machine → Mm → (begin end : ℕ) → Mm × Machine
trap_pages zero m mm begin end = (mm, m)
trap_pages (suc rounds) m mm begin end =
    let (mm', m') = set_task_page_notaccessable m mm begin in
    let rest = trap_pages rounds m' mm' (begin + page_size) end in
    if ltb begin end then rest else (mm, m)

abbrev pub device_pages : ℕ
device_pages = (devices_end - pbase) / page_size

-- The page that holds the state is taken from the pool; the state itself is a field of the task.
pub bcm2837_initialize : (count : ℕ) → Machine → Task → Task × Machine
bcm2837_initialize count m tsk =
    let (page, m₁) = allocate_page m in
    let (mm, m₂) = trap_pages device_pages m₁ tsk.mm pbase devices_end in
    (
      record tsk {
        mm = mm;
        board_data = record initial_state {
          systimer = record (initial_state.systimer) { last_physical_count = count };
        };
      },
      m₂,
    )
