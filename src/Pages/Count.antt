-- ===== src/Pages/Count.antt =====
-- How many pages are free, and what an allocation and a release do to that.
use mathlib.Core.Logic.{◌≢◌}
use avisor.Prelude.{
  ℕ, zero, suc, ◌+◌, ◌-◌, ◌/◌, ◌^◌, ◌<◌, ◌≡◌, inl, inr, refl, ap, ◌∙◌, List, [], ◌∷◌, ◌==◌,
  if◌then◌else◌, false, sym, ==_of_ne, get_or, set, arith, length, get_or-set_self, get_or-set_ne,
  replicate, length-replicate,
}
use avisor.Pages.{
  Machine, page_size, u64, panic, get_free_page, free_page, allocate_page, deallocate_page,
  rasp3b_page_pool, paging_pages,
}
use avisor.Pages.Alloc.{IsPool, IsFree, page_addr, taken, get_free_page-cases}

abbrev pub free_count : List ℕ → ℕ
free_count [] = 0
free_count (x ∷ xs) = (if x == 0 then 1 else 0) + free_count xs

free_count-set :
    (xs : List ℕ) (k : ℕ) → get_or xs k 1 ≡ 0 → free_count (set xs k 1) + 1 ≡ free_count xs
free_count-set [] k h = absurd (omega arith)
free_count-set (x ∷ xs) zero h = ground arith
free_count-set (x ∷ xs) (suc k) h = omega (arith, free_count-set xs k h)

free_count_of_full :
    (xs : List ℕ) → ((k : ℕ) → k < length xs → get_or xs k 1 ≢ 0) → free_count xs ≡ 0
free_count_of_full [] h = refl
free_count_of_full (x ∷ xs) h =
    ground (arith, h 0 (omega arith), free_count_of_full xs (λ k lt. h (suc k) (omega arith)))

abbrev pub free_pages : Machine → ℕ
free_pages m = free_count m.pool.memap

-- While a page is free, `get_free_page` finds one, and the number of free pages falls by one.
pub get_free_page-some :
    (m : Machine)
    → IsPool m.pool
    → 0 < free_pages m
    → (k : ℕ) × (k < m.pool.page_nr)
      × IsFree m.pool k
      × (get_free_page m ≡ (page_addr m.pool k, taken m k))
      × (free_pages (taken m k) + 1 ≡ free_pages m)
get_free_page-some m v h = elim (get_free_page-cases m v) [
  | inl full ↦
      absurd (omega (arith, free_count_of_full m.pool.memap (λ k lt. full.0 k (omega arith))))
  | inr (k, lt, free, e) ↦ (k, lt, free, e, free_count-set m.pool.memap k free)
]

pub get_free_page-alive :
    (m : Machine) → IsPool m.pool → 0 < free_pages m → (get_free_page m).1.pool.panicked ≡ false
get_free_page-alive m v h =
    let (k, lt, free, got, count) = get_free_page-some m v h in
    ap (λ r. r.1.pool.panicked) got ∙ v.alive

-- A page that `free_page` gives back is free again, and no other page changes its state.
pub free_page_lem :
    (m : Machine) (k j : ℕ)
    → IsPool m.pool
    → k < m.pool.page_nr
    → get_or (free_page m (page_addr m.pool k)).pool.memap j 1
      ≡ (if k == j then 0 else get_or m.pool.memap j 1)
unfolding free_page
free_page_lem m k j v lt =
    ap (λ i. get_or (set m.pool.memap i 0) j 1) index
    ∙ ground (arith, get_or-set_self m.pool.memap k 0 1, get_or-set_ne m.pool.memap k j 0 1)
  where
    index : u64 (page_addr m.pool k + 2 ^ 64 - m.pool.start_addr) / page_size ≡ k
    index = omega arith

set-set_back : (xs : List ℕ) (k : ℕ) → get_or xs k 1 ≡ 0 → set (set xs k 1) k 0 ≡ xs
set-set_back [] k h = refl
set-set_back (x ∷ xs) zero h = ap (λ (y : ℕ). y ∷ xs) (sym h)
set-set_back (x ∷ xs) (suc k) h = ap (λ ys. x ∷ ys) (set-set_back xs k h)

-- While a page is free, giving back the page that `allocate_page` returned leaves the same pages
-- free and in use as before the allocation.
pub deallocate_page-allocate_page :
    (m : Machine)
    → IsPool m.pool
    → 0 < free_pages m
    → (deallocate_page (allocate_page m).1 (allocate_page m).0).pool.memap ≡ m.pool.memap
unfolding deallocate_page allocate_page free_page
deallocate_page-allocate_page m v h =
    let (k, lt, free, got, count) = get_free_page-some m v h in
    let index : u64 (page_addr m.pool k + 2 ^ 64 - m.pool.start_addr) / page_size ≡ k =
      omega arith in
    let some_page : (page_addr m.pool k == 0) ≡ false = ==_of_ne _ _ (λ z. omega arith) in
    rw (got, some_page, index) (set-set_back m.pool.memap k free)

pub allocate_page-taken :
    (m : Machine) (k : ℕ)
    → get_free_page m ≡ (page_addr m.pool k, taken m k)
    → 0 < page_addr m.pool k
    → allocate_page m ≡ (page_addr m.pool k, taken m k)
unfolding allocate_page
allocate_page-taken m k got positive = rw (got, ==_of_ne (page_addr m.pool k) 0 (λ z. omega arith))

pub allocate_page-none :
    (m : Machine) → get_free_page m ≡ (0, panic m) → (allocate_page m).1 ≡ panic m
unfolding allocate_page
allocate_page-none m e = rw e refl

free_count-replicate : (n : ℕ) → free_count (replicate n 0) ≡ n
free_count-replicate zero = refl
free_count-replicate (suc n) = omega (arith, free_count-replicate n)

-- At the start the pool of the board is well formed, and all of its pages are free.
pub rasp3b_page_pool-IsPool :
    IsPool rasp3b_page_pool × (free_count rasp3b_page_pool.memap ≡ paging_pages)
unfolding rasp3b_page_pool
rasp3b_page_pool-IsPool = (
  record {
    alive = refl;
    mapped = length-replicate {A = ℕ} paging_pages 0;
    some_page = omega arith;
    last_in = omega arith;
    above_null = omega arith;
    aligned = refl;
    fits = omega arith;
  },
  free_count-replicate paging_pages,
)
