-- ===== src/Pages/Tests.antt =====
-- A pool of four pages, two of them in use, and the theorems at it.
use avisor.Prelude.{ℕ, ◌<◌, ◌≡◌, ◌⊎◌, refl, false, [], ◌∷◌, arith}
use avisor.Pages.{Machine, scan, panic, get_free_page, low_memory, allocate_page, rasp3b_page_pool}
use avisor.Pages.Alloc.{IsPool, IsFree, page_addr, taken, get_free_page-cases}

abbrev machine : Machine
machine = record {
  pool = record {
    start_addr = low_memory;
    page_nr = 4;
    memap = 0 ∷ 1 ∷ 1 ∷ 0 ∷ [];
    last_page_id = 2;
    panicked = false;
  };
  mem = λ a. a;
}

machine-IsPool : IsPool machine.pool
machine-IsPool = record {
  alive = refl;
  mapped = refl;
  some_page = omega arith;
  last_in = omega arith;
  above_null = omega arith;
  aligned = refl;
  fits = omega arith;
}

-- The search goes round: page 3, then page 0, then none.
search_order :
    ((get_free_page machine).0 ≡ 0x403000)
    × ((allocate_page (get_free_page machine).1).0 ≡ 0x400000)
    × ((get_free_page (get_free_page (get_free_page machine).1).1).0 ≡ 0)
unfolding get_free_page scan allocate_page
search_order = (refl, refl, refl)

start_of_pool : rasp3b_page_pool.start_addr ≡ 0x400000
unfolding rasp3b_page_pool
start_of_pool = refl

get_free_page-cases_example :
    (((k : ℕ) → k < 4 → ¬ IsFree machine.pool k) × (get_free_page machine ≡ (0, panic machine)))
    ⊎ ((k : ℕ) × (k < 4)
        × IsFree machine.pool k
        × (get_free_page machine ≡ (page_addr machine.pool k, taken machine k)))
get_free_page-cases_example = get_free_page-cases machine machine-IsPool
