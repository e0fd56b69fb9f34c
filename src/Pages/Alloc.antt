-- ===== src/Pages/Alloc.antt =====
-- What `get_free_page` and `free_page` do to the pool and the memory.
use avisor.Prelude.{
  ℕ, zero, suc, ◌+◌, ◌*◌, ◌%◌, ◌^◌, ◌≤◌, ◌<◌, ◌≡◌, ◌≢◌, ◌⊎◌, inl, inr, ◌∙◌, false, none, some, ◌==◌,
  ltb, get_or, set, arith, length, length-set, Bool-cases, Option-cases, ltb→lt,
}
use native.Mathlib.Nat.{mod-lt, mod-eq_of_lt, add-mod_right}
use avisor.Pages.{PagePool, Machine, page_size, u64, memzero, scan, panic, get_free_page}

-- No task has run out of pages, the pool fits its bitmap and the physical address space, and page 0 is not in it.
pub record IsPool (p : PagePool) : Type 0 where
  pub alive : p.panicked ≡ false
  pub mapped : length p.memap ≡ p.page_nr
  pub some_page : 0 < p.page_nr
  pub last_in : p.last_page_id < p.page_nr
  pub above_null : 0 < p.start_addr
  pub aligned : p.start_addr % page_size ≡ 0
  pub fits : p.start_addr + p.page_nr * page_size ≤ 2 ^ 48

-- Page `k` of the pool.
abbrev pub page_addr : PagePool → ℕ → ℕ
page_addr p k = p.start_addr + k * page_size

abbrev pub IsFree : PagePool → ℕ → Type 0
IsFree p k = get_or p.memap k 1 ≡ 0

module _ (p : PagePool) (v : IsPool p) where
  scan-none :
      (rounds i stop j : ℕ)
      → stop ≤ i + rounds
      → stop ≤ 2 ^ 63
      → scan p rounds i stop ≡ none
      → i ≤ j
      → j < stop
      → get_or p.memap (j % p.page_nr) 1 ≢ 0
  unfolding scan
  scan-none zero i stop j e b h lo hi = absurd (omega arith)
  scan-none (suc rounds) i stop j e b h lo hi = elim (Bool-cases (i == j)) [
    | inl here ↦ ground arith
    | inr later ↦ ground (arith, scan-none rounds (i + 1) stop j)
  ]

  scan-some : (rounds i stop k : ℕ) → scan p rounds i stop ≡ some k → (k < p.page_nr) × IsFree p k
  unfolding scan
  scan-some zero i stop k h = cc
  scan-some (suc rounds) i stop k h =
      ground (arith, scan-some rounds (u64 (i + 1)) stop k, mod-lt i v.some_page)

  -- The search fails only when every page is in use.
  scan-all :
      (k : ℕ)
      → scan p p.page_nr p.last_page_id (u64 (p.last_page_id + p.page_nr)) ≡ none
      → k < p.page_nr
      → ¬ IsFree p k
  scan-all k h lt = elim (Bool-cases (ltb k p.last_page_id)) [
    | inl wrapped ↦ λ free.
        scan-none p.page_nr p.last_page_id (p.last_page_id + p.page_nr) (k + p.page_nr)
          (omega arith) (omega arith) (rw (← no_wrap) h) (omega (arith, ltb→lt _ _ wrapped))
          (omega (arith, ltb→lt _ _ wrapped)) (rw (add-mod_right, mod-eq_of_lt lt) free)
    | inr first ↦ λ free.
        scan-none p.page_nr p.last_page_id (p.last_page_id + p.page_nr) k (omega arith)
          (omega arith) (rw (← no_wrap) h) (ground arith) (ground arith) (rw (mod-eq_of_lt lt) free)
  ]
    where
      no_wrap : u64 (p.last_page_id + p.page_nr) ≡ p.last_page_id + p.page_nr
      no_wrap = omega arith

-- What `get_free_page` leaves behind when it returns page `k`.
abbrev pub taken : Machine → ℕ → Machine
taken m k = record {
  pool = record (m.pool) { memap = set m.pool.memap k 1; last_page_id = k };
  mem = memzero m.mem (page_addr m.pool k) page_size;
}

page_addr-u64 :
    (p : PagePool) (k : ℕ)
    → IsPool p
    → k < p.page_nr
    → u64 (p.start_addr + u64 (k * page_size)) ≡ page_addr p k
page_addr-u64 p k v lt = omega arith

-- Either every page is in use, and `get_free_page` panics, with the pool and memory as they were, or
-- it returns a page that was free, which is then in use and all zero, and touches nothing else.
pub get_free_page-cases :
    (m : Machine)
    → IsPool m.pool
    → (((k : ℕ) → k < m.pool.page_nr → ¬ IsFree m.pool k) × (get_free_page m ≡ (0, panic m)))
      ⊎ ((k : ℕ) × (k < m.pool.page_nr)
          × IsFree m.pool k
          × (get_free_page m ≡ (page_addr m.pool k, taken m k)))
unfolding get_free_page
get_free_page-cases m v =
    elim (Option-cases (
      scan m.pool m.pool.page_nr m.pool.last_page_id
        (u64 (m.pool.last_page_id + m.pool.page_nr)))) [
          | inl e ↦ inl (λ k lt. scan-all m.pool v k e lt, rw (e, get_free_page))
          | inr (k, e) ↦
              let found =
                scan-some m.pool v m.pool.page_nr m.pool.last_page_id
                  (u64 (m.pool.last_page_id + m.pool.page_nr)) k e in
              inr (k, found.0, found.1, rw (e, get_free_page, page_addr-u64 m.pool k v found.0))
        ]

pub taken-IsPool :
    (m : Machine) (k : ℕ) → IsPool m.pool → k < m.pool.page_nr → IsPool (taken m k).pool
taken-IsPool m k v lt = record {
  alive = v.alive;
  mapped = length-set m.pool.memap k 1 ∙ v.mapped;
  some_page = v.some_page;
  last_in = lt;
  above_null = v.above_null;
  aligned = v.aligned;
  fits = v.fits;
}
