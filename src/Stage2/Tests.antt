-- ===== src/Stage2/Tests.antt =====
-- A machine with eight free pages and no tables, and the theorem at it.
use avisor.Prelude.{◌%◌, ◌/◌, ◌^◌, ℕ, true, false, ◌+◌, ◌≡◌, refl, arith, replicate}
use avisor.Pages.{Machine, get_free_page, low_memory}
use avisor.Stage2.{
  Mm, map_stage2_page, map_stage2_table, map_stage2_table_entry, page_flags, check_task_page_mapped,
  allocate_task_page, set_task_page_notaccessable,
}
use avisor.Stage2.Alloc.{
  Allocated, allocate_task_page-Allocated, set_task_page_notaccessable-Mapped,
}
use avisor.Stage2.Tree.{other, Roles, IsTree, translate}
use avisor.Stage2.Map.{Mapped, map_stage2_page-Mapped}

abbrev machine : Machine
machine = record {
  pool = record {
    start_addr = low_memory;
    page_nr = 8;
    memap = replicate 8 0;
    last_page_id = 0;
    panicked = false;
  };
  mem = λ a. 0;
}

abbrev no_mm : Mm
no_mm = record { first_table = 0; user_pages_count = 0; kernel_pages_count = 0 }

abbrev no_roles : Roles
no_roles p = other

machine-IsTree : IsTree no_roles (λ t. 0) machine
machine-IsTree = record {
  pool = record {
    alive = refl;
    mapped = refl;
    some_page = omega arith;
    last_in = omega arith;
    above_null = omega arith;
    aligned = refl;
    fits = omega arith;
  };
  owned = λ p t path r. cc r;
  rooted = λ t h. absurd (h refl);
  entries = λ p t path i r short lt. cc r;
}

-- Two neighbouring pages of one VM, mapped one after the other.
two_pages :
    let (mm, m) = map_stage2_page machine no_mm 0x80000 0x405000 page_flags in
    let (mm', m') = map_stage2_page m mm 0x81000 0x406000 page_flags in
    (mm'.kernel_pages_count ≡ 3)
    × (mm'.user_pages_count ≡ 2)
    × (translate m'.mem mm'.first_table 0x80123 ≡ 0x4057d7)
    × (translate m'.mem mm'.first_table 0x81000 ≡ 0x4067d7)
    × (translate m'.mem mm'.first_table 0x82000 ≡ 0)
unfolding map_stage2_page map_stage2_table map_stage2_table_entry get_free_page
two_pages = (refl, refl, refl, refl, refl)

-- `check_task_page_mapped` adds the tables that it misses: at its third call it reports a page as
-- mapped that no one has mapped.
check_adds_tables :
    let (first, mm₁, m₁) = check_task_page_mapped machine no_mm 0x80000 in
    let (second, mm₂, m₂) = check_task_page_mapped m₁ mm₁ 0x80000 in
    let (third, mm₃, m₃) = check_task_page_mapped m₂ mm₂ 0x80000 in
    (first ≡ false)
    × (second ≡ false)
    × (third ≡ true)
    × (translate m₃.mem mm₃.first_table 0x80000 ≡ 0)
unfolding check_task_page_mapped map_stage2_table get_free_page
check_adds_tables = (refl, refl, refl, refl)

map_stage2_page-Mapped_example :
    Mapped
      (λ t. 0)
      machine
      1
      0x80000
      (0x405000 + page_flags)
      (map_stage2_page machine no_mm 0x80000 0x405000 page_flags)
map_stage2_page-Mapped_example =
    map_stage2_page-Mapped no_mm 1 0x80000 0x405000 page_flags machine-IsTree refl (omega arith)
      (omega arith) (omega arith)

allocate_task_page-Allocated_example :
    Allocated (λ t. 0) machine 1 0x80000 (allocate_task_page machine no_mm 0x80000)
allocate_task_page-Allocated_example =
    allocate_task_page-Allocated no_mm 1 0x80000 machine-IsTree refl (omega arith)

set_task_page_notaccessable-Mapped_example :
    (d : ℕ) × (d % 4 ≡ 3)
    × (d / 2 ^ 6 % 4 ≡ 0)
    × Mapped (λ t. 0) machine 1 0x80000 d (set_task_page_notaccessable machine no_mm 0x80000)
set_task_page_notaccessable-Mapped_example =
    set_task_page_notaccessable-Mapped no_mm 1 0x80000 machine-IsTree refl (omega arith)
