-- ===== src/Pages.antt =====
-- hypervisor/common/mm.c and hypervisor/boards/raspi/raspi3b.c: the pool of physical pages, over
-- the physical memory that the hypervisor reads and writes at identical virtual addresses.
pub mod Alloc
pub mod Count
mod Tests
use avisor.Prelude.{
  ℕ, zero, suc, ◌+◌, ◌-◌, ◌*◌, ◌/◌, ◌%◌, ◌^◌, ◌≤◌, ◌<◌, ◌≡◌, Bool, true, false, ◌&&◌, Option, none,
  some, List, ◌==◌, if◌then◌else◌, ltb, leb, get_or, set, replicate,
}

abbrev pub page_size : ℕ
page_size = 4096

-- LOW_MEMORY, HIGH_MEMORY (DEVICE_BASE), PAGING_PAGES
abbrev pub low_memory : ℕ
low_memory = 2 * 2 ^ 21

abbrev pub high_memory : ℕ
high_memory = 0x3F000000

abbrev pub paging_pages : ℕ
paging_pages = (high_memory - low_memory) / page_size

-- `struct page_pool`, and whether `get_free_page` has called PANIC, which ends the current task. A
-- function of the model that finds this set changes nothing more.
pub record PagePool : Type 0 where
  pub start_addr : ℕ
  pub page_nr : ℕ
  pub memap : List ℕ
  pub last_page_id : ℕ
  pub panicked : Bool

-- The pool as it is linked into the image: `rasp3b_page_pool`.
pub rasp3b_page_pool : PagePool
rasp3b_page_pool = record {
  start_addr = low_memory;
  page_nr = paging_pages;
  memap = replicate paging_pages 0;
  last_page_id = 0;
  panicked = false;
}

-- The pool, and the memory as 64-bit words at their byte addresses.
pub record Machine : Type 0 where
  pub pool : PagePool
  pub mem : ℕ → ℕ

abbrev pub u64 : ℕ → ℕ
u64 x = x % 2 ^ 64

abbrev pub store : (ℕ → ℕ) → ℕ → ℕ → ℕ → ℕ
store mem a v b = if b == a then v else mem b

abbrev pub memzero : (ℕ → ℕ) → ℕ → ℕ → ℕ → ℕ
memzero mem a n b = if leb a b && ltb b (a + n) then 0 else mem b

-- The search loop of `get_free_page` from page `i` up to `stop`, with the index that it stops at.
-- `rounds` bounds it; `page_nr` rounds are enough, by `Alloc.scan-none`.
pub scan : PagePool → (rounds i stop : ℕ) → Option ℕ
scan pool zero i stop = none
scan pool (suc rounds) i stop =
    let later = scan pool rounds (u64 (i + 1)) stop in
    if ltb i stop
    then (if get_or pool.memap (i % pool.page_nr) 1 == 0 then some (i % pool.page_nr) else later)
    else none

-- The body of the loop at a page that is free: take it, clear it, and start there next time.
take_page : Machine → ℕ → ℕ × Machine
take_page m index =
    let page = u64 (m.pool.start_addr + u64 (index * page_size)) in
    (
      page,
      record {
        pool = record (m.pool) { memap = set m.pool.memap index 1; last_page_id = index };
        mem = memzero m.mem page page_size;
      },
    )

-- `PANIC("no free pages!\n")` logs and calls exit_task, whose part in the scheduler is
-- `Sched.exit_task`. It comes back, to `return 0`, only in task 0 while no other task runs; that the
-- code goes on then is left out.
abbrev pub panic : Machine → Machine
panic m = record m { pool = record (m.pool) { panicked = true } }

unfoldable pub get_free_page : Machine → ℕ × Machine
unfolding take_page scan
get_free_page m =
    elim (scan m.pool m.pool.page_nr m.pool.last_page_id
      (u64 (m.pool.last_page_id + m.pool.page_nr))) [
        | none ↦ (0, panic m)
        | some index ↦ take_page m index
      ]

-- `u64` subtraction wraps. A page outside the pool changes nothing here.
pub free_page : Machine → ℕ → Machine
free_page m p = record m {
  pool = record (m.pool) {
    memap = set m.pool.memap (u64 (p + 2 ^ 64 - m.pool.start_addr) / page_size) 0;
  };
}

-- TO_VADDR and TO_PADDR add and subtract VA_START, which is 0.
pub allocate_page : Machine → ℕ × Machine
unfolding get_free_page
allocate_page m = let (page, m') = get_free_page m in if page == 0 then (0, m') else (page, m')

pub deallocate_page : Machine → ℕ → Machine
unfolding free_page
deallocate_page m page = free_page m page
