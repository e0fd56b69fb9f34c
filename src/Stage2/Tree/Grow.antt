-- ===== src/Stage2/Tree/Grow.antt =====
-- New tables: taking a page for one and linking it keep the invariant and every translation.
use avisor.Prelude.{
  ℕ, ◌+◌, ◌%◌, ◌<◌, ◌≡◌, ◌≢◌, inl, inr, sym, ap, ◌∙◌, List, [], ◌∷◌, ◌==◌, length, arith,
  Bool-cases, ==_iff, ==_of_ne, get_or, get_or-set_self, get_or-set_ne,
}
use avisor.Pages.{Machine, store, memzero, page_size}
use avisor.Pages.Alloc.{IsFree, page_addr, taken, taken-IsPool}
use avisor.Stage2.{slot}
use avisor.Stage2.Tree.{table, Roles, assign, InUse, Entry, empty, link, IsTree}
use avisor.Stage2.Tree.Lookup.{table_addr, slot-ne, ne_of_length}

pub memzero_inside : (mem : ℕ → ℕ) (q i : ℕ) → i < 512 → memzero mem q page_size (slot q i) ≡ 0
memzero_inside mem q i h = ground arith

memzero_outside :
    (mem : ℕ → ℕ) (p q i : ℕ)
    → p % 4096 ≡ 0
    → q % 4096 ≡ 0
    → i < 512
    → p ≢ q
    → memzero mem q page_size (slot p i) ≡ mem (slot p i)
memzero_outside mem p q i a b h ne = ground arith

module _ {roles : Roles} {root : ℕ → ℕ} {m : Machine} (v : IsTree roles root m) where
  module _ (k : ℕ) (lt : k < m.pool.page_nr) (free : IsFree m.pool k) where
    -- A page that is free is no table.
    pub table-ne-free : (p t : ℕ) (path : List ℕ) → roles p ≡ table t path → p ≢ page_addr m.pool k
    table-ne-free p t path r e =
        let u = v.owned p t path r in
        let same : u.index ≡ k = omega (arith, u.addr) in
        u.used (ap (λ j. get_or m.pool.memap j 1) same ∙ free)

    taken_page_aligned : page_addr m.pool k % 4096 ≡ 0
    taken_page_aligned = let pool = v.pool in omega arith

    pub mem-taken :
        (p t : ℕ) (path : List ℕ) (i : ℕ)
        → roles p ≡ table t path
        → i < 512
        → (taken m k).mem (slot p i) ≡ m.mem (slot p i)
    mem-taken p t path i r h =
        memzero_outside m.mem p (page_addr m.pool k) i (table_addr v p t path r).0
          taken_page_aligned h (table-ne-free p t path r)

    -- The page can become a table of any task, as yet unlinked.
    pub taken-IsTree :
        (u : ℕ) (way : List ℕ)
        → IsTree (assign roles (page_addr m.pool k) (table u way)) root (taken m k)
    taken-IsTree u way = record {
      pool = taken-IsPool m k v.pool lt;
      owned = owned';
      rooted = λ t h. keep (root t) t [] (v.rooted t h);
      entries = entries';
    }
      where
        q : ℕ
        q = page_addr m.pool k

        keep :
            (p t : ℕ) (path : List ℕ)
            → roles p ≡ table t path
            → assign roles q (table u way) p ≡ table t path
        keep p t path r = rw (==_of_ne p q (table-ne-free p t path r)) r

        still : {p : ℕ} → InUse m.pool p → InUse (taken m k).pool p
        still w = record {
          index = w.index;
          addr = w.addr;
          within = w.within;
          used = λ f. w.used (
              sym (
                get_or-set_ne m.pool.memap k w.index 1 1
                  (λ e. w.used (ap (λ j. get_or m.pool.memap j 1) (sym e) ∙ free)))
              ∙ f);
        }

        owned' :
            (p t : ℕ) (path : List ℕ)
            → assign roles q (table u way) p ≡ table t path
            → InUse (taken m k).pool p
        owned' p t path r = elim (Bool-cases (p == q)) [
          | inl hit ↦ record {
            index = k;
            addr = (==_iff p q).0 hit;
            within = lt;
            used = λ f. omega (arith, f, get_or-set_self m.pool.memap k 1 1, v.pool.mapped);
          }
          | inr miss ↦ still (v.owned p t path (rw miss at r))
        ]

        lift :
            {t : ℕ} {path : List ℕ} {e : ℕ}
            → Entry roles t path e
            → Entry (assign roles q (table u way)) t path e
        lift (empty e) = empty e
        lift (link p e r) = link p e (keep p _ _ r)

        entries' :
            (p t : ℕ) (path : List ℕ) (i : ℕ)
            → assign roles q (table u way) p ≡ table t path
            → length path < 2
            → i < 512
            → Entry (assign roles q (table u way)) t (i ∷ path) ((taken m k).mem (slot p i))
        entries' p t path i r short h = elim (Bool-cases (p == q)) [
          | inl hit ↦ empty (
              ap (λ x. memzero m.mem q page_size (slot x i)) ((==_iff p q).0 hit)
              ∙ memzero_inside m.mem q i h)
          | inr miss ↦
              let r' : roles p ≡ table t path = rw miss at r in
              rw (mem-taken p t path i r' h) (lift (v.entries p t path i r' short h))
        ]

  -- Linking a table below another keeps the invariant.
  pub store_link-IsTree :
      (p t i q : ℕ) (path : List ℕ)
      → roles p ≡ table t path
      → i < 512
      → roles q ≡ table t (i ∷ path)
      → IsTree roles root (record m { mem = store m.mem (slot p i) (q + 3) })
  store_link-IsTree p t i q path r hi rq = record {
    pool = v.pool;
    owned = v.owned;
    rooted = v.rooted;
    entries = entries';
  }
    where
      entries' :
          (x u : ℕ) (way : List ℕ) (h : ℕ)
          → roles x ≡ table u way
          → length way < 2
          → h < 512
          → Entry roles u (h ∷ way) (store m.mem (slot p i) (q + 3) (slot x h))
      entries' x u way h rx short hh = elim (Bool-cases (slot x h == slot p i)) [
        | inl hit ↦
            let a = table_addr v x u way rx in
            let b = table_addr v p t path r in
            let at_same : slot x h ≡ slot p i = (==_iff _ _).0 hit in
            let same_page : x ≡ p = omega arith in
            let same_index : h ≡ i = omega arith in
            let same_role : table u way ≡ table t path = sym rx ∙ ap roles same_page ∙ r in
            link q (rw hit) (cc (rq, same_role, same_index))
        | inr miss ↦ rw miss (v.entries x u way h rx short hh)
      ]

  -- A last descriptor is no entry of the upper tables.
  pub store_leaf-IsTree :
      (p t k d : ℕ) (path : List ℕ)
      → roles p ≡ table t path
      → length path ≡ 2
      → k < 512
      → IsTree roles root (record m { mem = store m.mem (slot p k) d })
  store_leaf-IsTree p t k d path r two hk = record {
    pool = v.pool;
    owned = v.owned;
    rooted = v.rooted;
    entries = λ x u way h rx short hh.
        rw
          (==_of_ne (slot x h) (slot p k) (
            slot-ne x p h k (table_addr v x u way rx).0 (table_addr v p t path r).0 hh hk
              (ne_of_length v x p u t way path rx r (omega arith))))
          (v.entries x u way h rx short hh);
  }
