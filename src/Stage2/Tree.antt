-- ===== src/Stage2/Tree.antt =====
-- Who owns each physical page, and the invariant that the tables of all tasks keep together.
pub mod Lookup
pub mod Grow
pub mod Step
use Prim.Native.Nat.{bit_and}
use avisor.Prelude.{
  ℕ, zero, suc, ◌+◌, ◌*◌, ◌%◌, ◌<◌, ◌≡◌, ◌≢◌, ◌⊎◌, List, [], ◌∷◌, ◌==◌, if◌then◌else◌, length,
}
use avisor.Pages.{PagePool, Machine}
use avisor.Pages.Alloc.{IsPool, IsFree, page_addr}
use avisor.Stage2.{slot, page_mask, table_index, lv1_shift, lv2_shift, page_shift}

-- A page is a table of task `t`, reached by the indices of the path (last step first), or is not a
-- table.
pub data Role : Type 0 where
  other : Role
  table : ℕ → List ℕ → Role

abbrev pub Roles : Type 0
Roles = ℕ → Role

abbrev pub assign : Roles → ℕ → Role → Roles
assign roles q r p = if p == q then r else roles p

-- The address of a page of the pool that is in use.
pub record InUse (pool : PagePool) (p : ℕ) : Type 0 where
  pub index : ℕ
  pub addr : p ≡ page_addr pool index
  pub within : index < pool.page_nr
  pub used : ¬ IsFree pool index

-- A table entry is empty, or links to the table one step further.
pub data Entry (roles : Roles) (t : ℕ) (path : List ℕ) (e : ℕ) : Type 0 where
  empty : e ≡ 0 → Entry roles t path e
  link : (q : ℕ) → e ≡ q + 3 → roles q ≡ table t path → Entry roles t path e

pub record IsTree (roles : Roles) (root : ℕ → ℕ) (m : Machine) : Type 0 where
  pub pool : IsPool m.pool
  pub owned : (p t : ℕ) (path : List ℕ) → roles p ≡ table t path → InUse m.pool p
  pub rooted : (t : ℕ) → root t ≢ 0 → roles (root t) ≡ table t []
  pub entries :
      (p t : ℕ) (path : List ℕ) (i : ℕ)
      → roles p ≡ table t path
      → length path < 2
      → i < 512
      → Entry roles t (i ∷ path) (m.mem (slot p i))

-- The translation-table walk of the MMU from the table at `p`: an entry with bit 0 clear is
-- invalid, any other but the last leads to the table at its address. The result is the last
-- descriptor, 0 where the walk meets an invalid entry.
abbrev pub lookup : (ℕ → ℕ) → ℕ → List ℕ → ℕ
lookup mem p [] = 0
lookup mem p (i ∷ []) = mem (slot p i)
lookup mem p (i ∷ j ∷ is) =
    let rest = lookup mem (bit_and (mem (slot p i)) page_mask) (j ∷ is) in
    if mem (slot p i) % 2 == 0 then 0 else rest

abbrev pub indices : ℕ → List ℕ
indices va = table_index lv1_shift va ∷ table_index lv2_shift va ∷ table_index page_shift va ∷ []

-- What the VM whose level 1 table is `root` finds at `va`. With no table it finds nothing.
abbrev pub translate : (ℕ → ℕ) → ℕ → ℕ → ℕ
translate mem root va = if root == 0 then 0 else lookup mem root (indices va)
