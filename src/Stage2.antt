-- ===== src/Stage2.antt =====
-- hypervisor/common/mm.c: the stage-2 translation tables that confine a VM to its own pages.
-- A function that updates `task->mm`, the page pool or memory returns them beside its result.
pub mod Words
pub mod Tree
pub mod Map
pub mod Alloc
mod Tests
use Prim.Native.Nat.{bit_and, bit_or}
use avisor.Prelude.{
  ℕ, zero, suc, ◌+◌, ◌-◌, ◌*◌, ◌/◌, ◌%◌, ◌^◌, Bool, true, false, List, [], ◌∷◌, ◌==◌, if◌then◌else◌,
}
use avisor.Pages.{Machine, store, get_free_page}

-- PAGE_SHIFT, LV2_SHIFT, LV1_SHIFT, PTRS_PER_TABLE, PAGE_MASK, MM_TYPE_PAGE_TABLE
abbrev pub page_shift : ℕ
page_shift = 12

abbrev pub lv2_shift : ℕ
lv2_shift = 21

abbrev pub lv1_shift : ℕ
lv1_shift = 30

abbrev pub ptrs_per_table : ℕ
ptrs_per_table = 512

abbrev pub page_mask : ℕ
page_mask = 0xfffffffffffff000

abbrev pub mm_type_page_table : ℕ
mm_type_page_table = 0x3

-- MMU_STAGE2_PAGE_FLAGS and MMU_STAGE2_MMIO_PAGE_FLAGS
abbrev pub page_flags : ℕ
page_flags = 0x3 + 2 ^ 10 + 3 * 2 ^ 8 + 3 * 2 ^ 6 + 5 * 2 ^ 2

abbrev pub mmio_page_flags : ℕ
mmio_page_flags = 0x3 + 2 ^ 10 + 3 * 2 ^ 8

-- `struct mm_struct`; the counts are `int`, whose overflow C leaves undefined.
pub record Mm : Type 0 where
  pub first_table : ℕ
  pub user_pages_count : ℕ
  pub kernel_pages_count : ℕ

-- The word `((uint64_t *)table)[index]`.
abbrev pub slot : ℕ → ℕ → ℕ
slot table index = table + 8 * index

abbrev pub table_index : ℕ → ℕ → ℕ
table_index shift va = bit_and (va / 2 ^ shift) (ptrs_per_table - 1)

pub map_stage2_table_entry : Machine → (pte va pa flags : ℕ) → Machine
map_stage2_table_entry m pte va pa flags = record m {
  mem = store m.mem (slot pte (table_index page_shift va)) (bit_or pa flags);
}

-- The next table, and whether it is new (`*new_table`). Where PANIC is called nothing is written.
pub map_stage2_table : Machine → (table shift va : ℕ) → ℕ × Bool × Machine
map_stage2_table m table shift va =
    let entry = slot table (table_index shift va) in
    if m.pool.panicked
    then (0, false, m)
    else if m.mem entry == 0
    then (let (next, m') = get_free_page m in
        if m'.pool.panicked
        then (0, false, m')
        else (next, true, record m' { mem = store m'.mem entry (bit_or next mm_type_page_table) }))
    else (bit_and (m.mem entry) page_mask, false, m)

-- The first step of a walk: give the task a level 1 table if it has none.
ensure_first_table : Machine → Mm → Mm × Machine
ensure_first_table m mm =
    if mm.first_table == 0
    then (let (table, m') = get_free_page m in
        if m'.pool.panicked then (mm, m') else (
          record mm { first_table = table; kernel_pages_count = mm.kernel_pages_count + 1 },
          m',
        ))
    else (mm, m)

-- `if (new_table) task->mm.kernel_pages_count++`
count_table : Bool → Mm → Mm
count_table new mm =
    if new then record mm { kernel_pages_count = mm.kernel_pages_count + 1 } else mm

pub map_stage2_page : Machine → Mm → (va page flags : ℕ) → Mm × Machine
unfolding ensure_first_table count_table
map_stage2_page m mm va page flags =
    let (mm₁, m₁) = ensure_first_table m mm in
    let (lv2_table, new₂, m₂) = map_stage2_table m₁ mm₁.first_table lv1_shift va in
    let (lv3_table, new₃, m₃) = map_stage2_table m₂ lv2_table lv2_shift va in
    let mm₃ = count_table new₃ (count_table new₂ mm₁) in
    if m₃.pool.panicked then (mm₃, m₃) else (
      record mm₃ { user_pages_count = mm₃.user_pages_count + 1 },
      map_stage2_table_entry m₃ lv3_table va page flags,
    )

pub check_task_page_mapped : Machine → Mm → ℕ → Bool × Mm × Machine
unfolding ensure_first_table
check_task_page_mapped m mm va =
    let (mm₁, m₁) = ensure_first_table m mm in
    let (lv2_table, new₂, m₂) = map_stage2_table m₁ mm₁.first_table lv1_shift va in
    if new₂
    then (false, record mm₁ { kernel_pages_count = mm₁.kernel_pages_count + 1 }, m₂)
    else (let (lv3_table, new₃, m₃) = map_stage2_table m₂ lv2_table lv2_shift va in
        if m₃.pool.panicked
        then (false, mm₁, m₃)
        else if new₃
        then (false, record mm₁ { kernel_pages_count = mm₁.kernel_pages_count + 1 }, m₃)
        else (true, mm₁, m₃))

-- The result is the page, or 0 when none was free and PANIC has ended the task.
unfoldable pub allocate_task_page : Machine → Mm → ℕ → ℕ × Mm × Machine
allocate_task_page m mm va =
    let (page, m') = get_free_page m in
    if page == 0
    then (0, mm, m')
    else (let (mm', m'') = map_stage2_page m' mm va page page_flags in (page, mm', m''))

pub set_task_page_notaccessable : Machine → Mm → ℕ → Mm × Machine
set_task_page_notaccessable m mm va = map_stage2_page m mm va 0 mmio_page_flags
