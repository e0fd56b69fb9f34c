-- ===== src/Stage2/Tree/Lookup.antt =====
-- Walks through the tables: what leaves them alone, and what one new entry changes.
use avisor.Prelude.{
  ℕ, ◌+◌, ◌%◌, ◌<◌, ◌^◌, ◌≡◌, ◌≢◌, inl, inr, refl, sym, ap, ◌∙◌, List, [], ◌∷◌, ◌==◌, length, arith,
  Bool-cases, ==_iff, ==_of_ne,
}
use avisor.Pages.{PagePool, Machine, store}
use avisor.Pages.Alloc.{IsPool}
use avisor.Stage2.{slot}
use avisor.Stage2.Words.{page_of_descriptor}
use avisor.Stage2.Tree.{table, Roles, InUse, Entry, empty, link, IsTree, lookup}

-- Indices stay within a table.
abbrev pub Small : List ℕ → Type 0
Small [] = Unit {0}
Small (i ∷ is) = (i < 512) × Small is

pub InUse-aligned :
    {pool : PagePool} (p : ℕ) → IsPool pool → InUse pool p → (p % 4096 ≡ 0) × (p < 2 ^ 48) × (0 < p)
InUse-aligned p v u = omega arith

-- Two tables share no word.
pub slot-ne :
    (p q i j : ℕ) → p % 4096 ≡ 0 → q % 4096 ≡ 0 → i < 512 → j < 512 → p ≢ q → slot p i ≢ slot q j
slot-ne p q i j a b hi hj ne e = ne (omega arith)

pub lookup_zero :
    (mem : ℕ → ℕ) (q : ℕ) (is : List ℕ)
    → ((i : ℕ) → i < 512 → mem (slot q i) ≡ 0)
    → Small is
    → lookup mem q is ≡ 0
lookup_zero mem q [] z s = refl
lookup_zero mem q (i ∷ []) z s = z i s.0
lookup_zero mem q (i ∷ j ∷ is) z s = ground (arith, z i s.0)

-- Where an entry links to `q`, the walk goes on there.
pub lookup-link :
    (mem : ℕ → ℕ) (p q i j : ℕ) (is : List ℕ)
    → mem (slot p i) ≡ q + 3
    → q % 4096 ≡ 0
    → q < 2 ^ 48
    → lookup mem p (i ∷ j ∷ is) ≡ lookup mem q (j ∷ is)
lookup-link mem p q i j is e a b =
    rw (e, page_of_descriptor q 3 a (omega arith) b, ==_of_ne ((q + 3) % 2) 0 (omega arith))

lookup-empty :
    (mem : ℕ → ℕ) (p i j : ℕ) (is : List ℕ) → mem (slot p i) ≡ 0 → lookup mem p (i ∷ j ∷ is) ≡ 0
lookup-empty mem p i j is e = rw e

-- The path of a walk that goes on from a path.
abbrev pub full : List ℕ → List ℕ → List ℕ
full way [] = way
full way (i ∷ is) = full (i ∷ way) is

module _ {roles : Roles} {root : ℕ → ℕ} {m : Machine} (v : IsTree roles root m) where
  -- The facts of a table's address.
  pub table_addr :
      (p t : ℕ) (path : List ℕ) → roles p ≡ table t path → (p % 4096 ≡ 0) × (p < 2 ^ 48) × (0 < p)
  table_addr p t path r = InUse-aligned p v.pool (v.owned p t path r)

  pub ne_of_length :
      (x p u t : ℕ) (way path : List ℕ)
      → roles x ≡ table u way
      → roles p ≡ table t path
      → length way ≢ length path
      → x ≢ p
  ne_of_length x p u t way path rx rp ne e =
      let same_role : table u way ≡ table t path = sym rx ∙ ap roles e ∙ rp in
      ne (ap length (cc same_role))

  -- One step of a walk in two memories that agree on the entry.
  lookup_step :
      (mem : ℕ → ℕ) (p t : ℕ) (path : List ℕ) (i j : ℕ) (is : List ℕ)
      → roles p ≡ table t path
      → length path < 2
      → Small (i ∷ j ∷ is)
      → mem (slot p i) ≡ m.mem (slot p i)
      → ((q : ℕ) → roles q ≡ table t (i ∷ path) → lookup mem q (j ∷ is) ≡ lookup m.mem q (j ∷ is))
      → lookup mem p (i ∷ j ∷ is) ≡ lookup m.mem p (i ∷ j ∷ is)
  lookup_step mem p t path i j is r short s same rest = go (v.entries p t path i r short s.0)
    where
      go :
          Entry roles t (i ∷ path) (m.mem (slot p i))
          → lookup mem p (i ∷ j ∷ is) ≡ lookup m.mem p (i ∷ j ∷ is)
      go (empty e) = lookup-empty mem p i j is (same ∙ e) ∙ sym (lookup-empty m.mem p i j is e)
      go (link q e r') =
          let a = table_addr q t (i ∷ path) r' in
          lookup-link mem p q i j is (same ∙ e) a.0 a.1
          ∙ rest q r'
          ∙ sym (lookup-link m.mem p q i j is e a.0 a.1)

  -- A memory that agrees on the words of all tables has the same walks.
  pub lookup-same :
      (mem : ℕ → ℕ)
      → ((p t : ℕ) (path : List ℕ) (i : ℕ)
          → roles p ≡ table t path
          → i < 512
          → mem (slot p i) ≡ m.mem (slot p i))
      → (is : List ℕ) (p t : ℕ) (path : List ℕ) → roles p ≡ table t path
      → length path + length is ≡ 3
      → Small is
      → lookup mem p is ≡ lookup m.mem p is
  lookup-same mem same [] p t path r n s = refl
  lookup-same mem same (i ∷ []) p t path r n s = same p t path i r s.0
  lookup-same mem same (i ∷ j ∷ is) p t path r n s =
      lookup_step mem p t path i j is r (omega arith) s (same p t path i r s.0)
        (λ q r'. lookup-same mem same (j ∷ is) q t (i ∷ path) r' (omega arith) s.1)

  -- A new empty table, linked where there was no entry, changes no walk.
  pub lookup-store_link :
      (p t i q : ℕ) (path : List ℕ)
      → roles p ≡ table t path
      → length path < 2
      → i < 512
      → roles q ≡ table t (i ∷ path)
      → m.mem (slot p i) ≡ 0
      → ((k : ℕ) → k < 512 → m.mem (slot q k) ≡ 0)
      → (is : List ℕ) (x u : ℕ) (way : List ℕ) → roles x ≡ table u way
      → length way + length is ≡ 3
      → Small is
      → lookup (store m.mem (slot p i) (q + 3)) x is ≡ lookup m.mem x is
  lookup-store_link p t i q path r short hi rq e z [] x u way rx n s = refl
  lookup-store_link p t i q path r short hi rq e z (h ∷ []) x u way rx n s =
      rw (==_of_ne (slot x h) (slot p i) apart)
    where
      apart : slot x h ≢ slot p i
      apart =
          slot-ne x p h i (table_addr x u way rx).0 (table_addr p t path r).0 s.0 hi
            (ne_of_length x p u t way path rx r (omega arith))
  lookup-store_link p t i q path r short hi rq e z (h ∷ j ∷ is) x u way rx n s =
      elim (Bool-cases (slot x h == slot p i)) [
        | inl hit ↦
            lookup-link mem x q h j is (rw hit) (table_addr q t (i ∷ path) rq).0
              (table_addr q t (i ∷ path) rq).1
            ∙ lookup_zero mem q (j ∷ is) zeros s.1
            ∙ sym (lookup-empty m.mem x h j is (ap m.mem ((==_iff _ _).0 hit) ∙ e))
        | inr miss ↦ lookup_step mem x u way h j is rx (omega arith) s (rw miss) (λ y r'.
            lookup-store_link p t i q path r short hi rq e z (j ∷ is) y u (h ∷ way) r' (omega arith)
              s.1)
      ]
    where
      mem : ℕ → ℕ
      mem = store m.mem (slot p i) (q + 3)

      zeros : (k : ℕ) → k < 512 → mem (slot q k) ≡ 0
      zeros k hk =
          rw
            (==_of_ne (slot q k) (slot p i) (
              slot-ne q p k i (table_addr q t (i ∷ path) rq).0 (table_addr p t path r).0 hk hi
                (ne_of_length q p t t (i ∷ path) path rq r (omega arith))))
            (z k hk)

  -- The last descriptor of a walk is found by that walk alone.
  pub lookup-store_leaf :
      (p t k d : ℕ) (path : List ℕ)
      → roles p ≡ table t path
      → length path ≡ 2
      → k < 512
      → (is : List ℕ) (x u : ℕ) (way : List ℕ) → roles x ≡ table u way
      → length way + length is ≡ 3
      → Small is
      → ¬ ((u ≡ t) × (full way is ≡ k ∷ path))
      → lookup (store m.mem (slot p k) d) x is ≡ lookup m.mem x is
  lookup-store_leaf p t k d path r two hk [] x u way rx n s differ = refl
  lookup-store_leaf p t k d path r two hk (h ∷ []) x u way rx n s differ =
      rw (==_of_ne (slot x h) (slot p k) apart)
    where
      apart : slot x h ≢ slot p k
      apart e =
          let a = table_addr x u way rx in
          let b = table_addr p t path r in
          let same_page : x ≡ p = omega arith in
          let same_index : h ≡ k = omega arith in
          let same_role : table u way ≡ table t path = sym rx ∙ ap roles same_page ∙ r in
          differ (cc same_role, cc (same_role, same_index))
  lookup-store_leaf p t k d path r two hk (h ∷ j ∷ is) x u way rx n s differ =
      lookup_step (store m.mem (slot p k) d) x u way h j is rx (omega arith) s
        (rw (==_of_ne (slot x h) (slot p k) apart))
        (λ y r'.
          lookup-store_leaf p t k d path r two hk (j ∷ is) y u (h ∷ way) r' (omega arith) s.1
            differ)
    where
      apart : slot x h ≢ slot p k
      apart =
          slot-ne x p h k (table_addr x u way rx).0 (table_addr p t path r).0 s.0 hk
            (ne_of_length x p u t way path rx r (omega arith))
