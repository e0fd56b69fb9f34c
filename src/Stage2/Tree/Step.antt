-- ===== src/Stage2/Tree/Step.antt =====
-- One call of `map_stage2_table`: it follows the entry or adds an empty table below it.
use Prim.Native.Nat.{bit_and, bit_or}
use mathlib.Core.Path.{subst}
use avisor.Prelude.{
  if_false, ℕ, ◌+◌, ◌≤◌, ◌<◌, ◌≡◌, ◌≢◌, inl, inr, refl, sym, ap, ◌∙◌, List, ◌∷◌, Bool, ◌==◌, length,
  arith, Bool-cases, true, false, ==_iff, ==_of_ne, ==_refl,
}
use avisor.Pages.{Machine, store, get_free_page}
use avisor.Pages.Alloc.{IsFree, page_addr, taken}
use avisor.Pages.Count.{free_pages, get_free_page-some, get_free_page-alive}
use avisor.Stage2.{slot, page_mask, table_index, map_stage2_table}
use avisor.Stage2.Words.{page_of_descriptor, table_index-lt, descriptor}
use avisor.Stage2.Tree.{table, Roles, assign, Entry, empty, link, IsTree, lookup}
use avisor.Stage2.Tree.Lookup.{Small, table_addr, lookup-same, lookup-store_link}
use avisor.Stage2.Tree.Grow.{
  table-ne-free, mem-taken, taken-IsTree, store_link-IsTree, memzero_inside,
}

-- What a machine keeps of an earlier one: the tables, their entries, and every translation.
pub record Extends (roles : Roles) (m : Machine) (roles' : Roles) (m' : Machine) : Type 0 where
  pub keeps : (x u : ℕ) (way : List ℕ) → roles x ≡ table u way → roles' x ≡ table u way
  pub entry :
      (x u : ℕ) (way : List ℕ) (h : ℕ)
      → roles x ≡ table u way
      → h < 512
      → m.mem (slot x h) ≢ 0
      → m'.mem (slot x h) ≡ m.mem (slot x h)
  pub walks :
      (is : List ℕ) (x u : ℕ) (way : List ℕ)
      → roles x ≡ table u way
      → length way + length is ≡ 3
      → Small is
      → lookup m'.mem x is ≡ lookup m.mem x is

pub Extends-refl : (roles : Roles) (m : Machine) → Extends roles m roles m
Extends-refl roles m = record {
  keeps = λ x u way r. r;
  entry = λ x u way h r lt ne. refl;
  walks = λ is x u way r n s. refl;
}

-- The result of following the entry of index `i` in the table at `p`.
pub record Followed (roles : Roles) (root : ℕ → ℕ) (m : Machine) (p t i : ℕ) (path : List ℕ)
    (out : ℕ × Bool × Machine) : Type 0 where
  pub roles' : Roles
  pub tree : IsTree roles' root out.2
  pub extends : Extends roles m roles' out.2
  pub child : roles' out.0 ≡ table t (i ∷ path)
  pub linked : out.2.mem (slot p i) ≡ out.0 + 3
  pub pages : free_pages m ≤ free_pages out.2 + 1

module _ {roles : Roles} {root : ℕ → ℕ} {m : Machine} (v : IsTree roles root m) where
  pub taken-Extends :
      (k : ℕ)
      → k < m.pool.page_nr
      → IsFree m.pool k
      → (u : ℕ) (way : List ℕ)
      → Extends roles m (assign roles (page_addr m.pool k) (table u way)) (taken m k)
  taken-Extends k lt free u way = record {
    keeps = λ x t path rx.
        rw (==_of_ne x (page_addr m.pool k) (table-ne-free v k lt free x t path rx)) rx;
    entry = λ x t path h rx hh ne. mem-taken v k lt free x t path h rx hh;
    walks = λ is x t path rx n s.
        lookup-same v (taken m k).mem
          (λ y t' path' h ry hh. mem-taken v k lt free y t' path' h ry hh) is x t path rx n s;
  }

  follow_new :
      (p t i : ℕ) (path : List ℕ)
      → roles p ≡ table t path
      → length path < 2
      → i < 512
      → 0 < free_pages m
      → m.mem (slot p i) ≡ 0
      → Followed roles root m p t i path (
          let (next, m') = get_free_page m in
          (next, true, record m' { mem = store m'.mem (slot p i) (bit_or next 3) }))
  follow_new p t i path r short hi some_free e =
      let (k, lt, free, got, count) = get_free_page-some m v.pool some_free in
      let q : ℕ = page_addr m.pool k in
      let ext = taken-Extends k lt free t (i ∷ path) in
      let w = taken-IsTree v k lt free t (i ∷ path) in
      let r' = ext.keeps p t path r in
      let rq : assign roles q (table t (i ∷ path)) q ≡ table t (i ∷ path) = rw (==_refl q) in
      rw (got, descriptor q 3 (table_addr w q t (i ∷ path) rq).0 (omega arith))
        (record {
          roles' = assign roles q (table t (i ∷ path));
          tree = store_link-IsTree w p t i q path r' hi rq;
          extends = record {
            keeps = ext.keeps;
            entry = λ x u way h rx hh ne.
                rw (==_of_ne (slot x h) (slot p i) (λ same. ne (ap m.mem same ∙ e)))
                  (ext.entry x u way h rx hh ne);
            walks = λ is x u way rx n s.
                lookup-store_link w p t i q path r' short hi rq
                  (mem-taken v k lt free p t path i r hi ∙ e) (λ h hh. memzero_inside m.mem q h hh)
                  is x u way (ext.keeps x u way rx) n s
                ∙ ext.walks is x u way rx n s;
          };
          child = rq;
          linked = rw (==_refl (slot p i));
          pages = omega (arith, count);
        })

  pub map_stage2_table-Followed :
      (p t shift va : ℕ) (path : List ℕ)
      → roles p ≡ table t path
      → length path < 2
      → 0 < free_pages m
      → Followed roles root m p t (table_index shift va) path (map_stage2_table m p shift va)
  unfolding map_stage2_table
  map_stage2_table-Followed p t shift va path r short some_free =
      subst (Followed roles root m p t i path) (sym (if_false m.pool.panicked _ _ v.pool.alive))
        (elim (Bool-cases (m.mem (slot p i) == 0)) [
          | inl absent ↦ rw absent (
              subst (Followed roles root m p t i path)
                (sym (if_false _ _ _ (get_free_page-alive m v.pool some_free)))
                (follow_new p t i path r short (table_index-lt shift va) some_free
                  ((==_iff _ _).0 absent)))
          | inr present ↦
              rw present (old (v.entries p t path i r short (table_index-lt shift va)) present)
        ])
    where
      i : ℕ
      i = table_index shift va

      old :
          Entry roles t (i ∷ path) (m.mem (slot p i))
          → (m.mem (slot p i) == 0) ≡ false
          → Followed roles root m p t i path (bit_and (m.mem (slot p i)) page_mask, false, m)
      old (empty e) ne = absurd (cc (ne, ap (λ (d : ℕ). d == 0) e))
      old (link q e rq) ne =
          let a = table_addr v q t (i ∷ path) rq in
          let next : bit_and (m.mem (slot p i)) page_mask ≡ q =
            ap (λ (d : ℕ). bit_and d page_mask) e ∙ page_of_descriptor q 3 a.0 (omega arith) a.1 in
          record {
            roles' = roles;
            tree = v;
            extends = Extends-refl roles m;
            child = ap roles next ∙ rq;
            linked = e ∙ ap (λ (d : ℕ). d + 3) (sym next);
            pages = omega arith;
          }
