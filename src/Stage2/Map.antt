-- ===== src/Stage2/Map.antt =====
-- `map_stage2_page`: the page that it maps is what the VM then finds, and no VM, this one
-- included, finds anything else at any other page.
use Prim.Native.Nat.{bit_or}
use avisor.Prelude.{
  if_false, ℕ, ◌+◌, ◌*◌, ◌%◌, ◌/◌, ◌≤◌, ◌<◌, ◌^◌, ◌≡◌, ◌≢◌, inl, inr, refl, sym, ap, ◌∙◌, List, [],
  ◌∷◌, Bool, ◌==◌, ◌&&◌, if◌then◌else◌, length, arith, Bool-cases, ==_iff, ==_of_ne, ==_refl,
}
use mathlib.Core.Path.{subst, ap₂}
use avisor.Pages.{Machine, store, page_size, get_free_page}
use avisor.Pages.Alloc.{page_addr, taken}
use avisor.Pages.Count.{free_pages, get_free_page-some, get_free_page-alive}
use avisor.Stage2.{
  Mm, slot, table_index, map_stage2_table_entry, ensure_first_table, count_table, map_stage2_table,
  map_stage2_page, lv1_shift, lv2_shift, page_shift,
}
use avisor.Stage2.Words.{table_index-lt, table_index-mod, descriptor}
use avisor.Stage2.Tree.{table, Roles, assign, IsTree, lookup, translate, indices}
use avisor.Stage2.Tree.Lookup.{
  Small, full, table_addr, lookup-link, lookup-store_leaf, lookup_zero, slot-ne, ne_of_length,
}
use avisor.Stage2.Tree.Grow.{taken-IsTree, memzero_inside, store_leaf-IsTree}
use avisor.Stage2.Tree.Step.{Extends, taken-Extends, map_stage2_table-Followed}

-- The level 1 tables with that of task `t` set.
abbrev pub point : (ℕ → ℕ) → ℕ → ℕ → ℕ → ℕ
point root t p u = if u == t then p else root u

-- The part of an address that a level 3 table resolves to.
abbrev pub page_number : ℕ → ℕ
page_number va = va / 2 ^ 12 % 2 ^ 27

indices-Small : (va : ℕ) → Small (indices va)
indices-Small va =
    (table_index-lt lv1_shift va, (table_index-lt lv2_shift va, (table_index-lt page_shift va, tt)))

module _ {roles : Roles} {root : ℕ → ℕ} {m : Machine} (v : IsTree roles root m) where
  -- What the first step of a walk leaves behind.
  record Rooted (t : ℕ) (out : Mm × Machine) : Type 0 where
    roles' : Roles
    tree : IsTree roles' (point root t out.0.first_table) out.1
    first : roles' out.0.first_table ≡ table t []
    pages : free_pages m ≤ free_pages out.1 + 1
    same :
        (u va : ℕ)
        → translate out.1.mem (point root t out.0.first_table u) va ≡ translate m.mem (root u) va

  with_root : (t p : ℕ) → roles p ≡ table t [] → IsTree roles (point root t p) m
  with_root t p r = record {
    pool = v.pool;
    owned = v.owned;
    rooted = λ u h. elim (Bool-cases (u == t)) [
      | inl hit ↦ rw hit (r ∙ ap (λ x. table x []) (sym ((==_iff u t).0 hit)))
      | inr miss ↦ rw miss (v.rooted u (rw miss at h))
    ];
    entries = v.entries;
  }

-- Walks of the tasks that have a table, in a machine that extends another.
pub translate-same :
    {roles roles' : Roles} {root : ℕ → ℕ} {m m' : Machine}
    → IsTree roles root m
    → Extends roles m roles' m'
    → (u va : ℕ) → translate m'.mem (root u) va ≡ translate m.mem (root u) va
translate-same {root = root} v e u va = elim (Bool-cases (root u == 0)) [
  | inl none ↦ rw none
  | inr some ↦ rw some (
      e.walks (indices va) (root u) u [] (v.rooted u (λ z. cc (some, ap (λ (x : ℕ). x == 0) z)))
        refl (indices-Small va))
]

first_table_new :
    {roles : Roles} {root : ℕ → ℕ} {m : Machine} (v : IsTree roles root m) (mm : Mm) (t : ℕ)
    → root t ≡ 0
    → 0 < free_pages m
    → Rooted v t (
        let (first, m') = get_free_page m in
        (record mm { first_table = first; kernel_pages_count = mm.kernel_pages_count + 1 }, m'))
first_table_new {roles} {root} {m} v mm t no_table some_free =
    let (k, lt, free, got, count) = get_free_page-some m v.pool some_free in
    let q : ℕ = page_addr m.pool k in
    let w = taken-IsTree v k lt free t [] in
    let rq : assign roles q (table t []) q ≡ table t [] = rw (==_refl q) in
    let positive : 0 < q = (table_addr w q t [] rq).2 in
    rw got (record {
      roles' = assign roles q (table t []);
      tree = with_root w t q rq;
      first = rq;
      pages = omega (arith, count);
      same = λ u va. elim (Bool-cases (u == t)) [
        | inl hit ↦
            let here : point root t q u ≡ q = rw hit in
            ap (λ x. translate (taken m k).mem x va) here
            ∙ rw (==_of_ne q 0 (omega arith)) (
                lookup_zero (taken m k).mem q (indices va) (λ i h. memzero_inside m.mem q i h)
                  (indices-Small va))
            ∙ ap (λ x. translate m.mem x va) (sym no_table)
            ∙ ap (λ x. translate m.mem (root x) va) (sym ((==_iff u t).0 hit))
        | inr miss ↦
            let there : point root t q u ≡ root u = rw miss in
            ap (λ x. translate (taken m k).mem x va) there
            ∙ translate-same v (taken-Extends v k lt free t []) u va
      ];
    })

ensure_first_table-Rooted :
    {roles : Roles} {root : ℕ → ℕ} {m : Machine} (v : IsTree roles root m) (mm : Mm) (t : ℕ)
    → root t ≡ mm.first_table
    → 0 < free_pages m
    → Rooted v t (ensure_first_table m mm)
unfolding ensure_first_table
ensure_first_table-Rooted {roles} {root} {m} v mm t at_t some_free =
    elim (Bool-cases (mm.first_table == 0)) [
      | inl absent ↦ rw absent (
          subst (Rooted v t) (sym (if_false _ _ _ (get_free_page-alive m v.pool some_free)))
            (first_table_new v mm t (at_t ∙ (==_iff _ _).0 absent) some_free))
      | inr present ↦
          let r : roles mm.first_table ≡ table t [] =
            ap roles (sym at_t)
            ∙ v.rooted t (λ z. cc (present, ap (λ (x : ℕ). x == 0) (sym at_t ∙ z))) in
          rw present (record {
            roles' = roles;
            tree = with_root v t mm.first_table r;
            first = r;
            pages = omega arith;
            same = λ u va. ap (λ x. translate m.mem x va) (ground arith);
          })
    ]

page_number_digits :
    (va : ℕ)
    → page_number va
      ≡ table_index lv1_shift va * 2 ^ 18
        + table_index lv2_shift va * 2 ^ 9
        + table_index page_shift va
page_number_digits va = omega (
  arith,
  table_index-mod lv1_shift va,
  table_index-mod lv2_shift va,
  table_index-mod page_shift va,
)

-- Pages are told apart by the indices of their walks.
page_number-indices :
    (va va' : ℕ) → full [] (indices va') ≡ full [] (indices va) → page_number va' ≡ page_number va
page_number-indices va va' e =
    let low : table_index page_shift va' ≡ table_index page_shift va = cc e in
    let mid : table_index lv2_shift va' ≡ table_index lv2_shift va = cc e in
    let top : table_index lv1_shift va' ≡ table_index lv1_shift va = cc e in
    omega (arith, page_number_digits va, page_number_digits va')

indices-page_number : (va va' : ℕ) → page_number va' ≡ page_number va → indices va' ≡ indices va
indices-page_number va va' e = cc (top, mid, low)
  where
    top : table_index lv1_shift va' ≡ table_index lv1_shift va
    top = omega (arith, table_index-mod lv1_shift va, table_index-mod lv1_shift va', e)

    mid : table_index lv2_shift va' ≡ table_index lv2_shift va
    mid = omega (arith, table_index-mod lv2_shift va, table_index-mod lv2_shift va', e)

    low : table_index page_shift va' ≡ table_index page_shift va
    low = omega (arith, table_index-mod page_shift va, table_index-mod page_shift va', e)

-- Task `u` looks at the page of `va` as task `t` does.
abbrev pub is_page : (t va u va' : ℕ) → Bool
is_page t va u va' = (u == t) && (page_number va' == page_number va)

module _ {roles : Roles} {root : ℕ → ℕ} {m : Machine} (v : IsTree roles root m) where
  -- What a descriptor `d` for `va`, stored at the end of the walk of task `t`, leaves behind.
  record Written (t va d : ℕ) (m' : Machine) : Type 0 where
    tree : IsTree roles root m'
    found :
        (u va' : ℕ)
        → translate m'.mem (root u) va'
          ≡ (if is_page t va u va' then d else translate m.mem (root u) va')

  store_leaf-Written :
      (t va d q p : ℕ)
      → root t ≢ 0
      → m.mem (slot (root t) (table_index lv1_shift va)) ≡ q + 3
      → roles q ≡ table t (table_index lv1_shift va ∷ [])
      → m.mem (slot q (table_index lv2_shift va)) ≡ p + 3
      → roles p ≡ table t (table_index lv2_shift va ∷ table_index lv1_shift va ∷ [])
      → Written t va d (record m { mem = store m.mem (slot p (table_index page_shift va)) d })
  store_leaf-Written t va d q p has to_q rq to_p rp = record {
    tree =
        store_leaf-IsTree v p t (table_index page_shift va) d _ rp refl
          (table_index-lt page_shift va);
    found = λ u va'. elim (Bool-cases (is_page t va u va')) [
      | inl hit ↦ rw hit (here u va' (ground arith) (ground arith))
      | inr miss ↦ rw miss (elsewhere u va' (ground arith))
    ];
  }
    where
      mem : ℕ → ℕ
      mem = store m.mem (slot p (table_index page_shift va)) d

      -- The upper tables keep their entries.
      upper :
          (x : ℕ) (way : List ℕ) (h : ℕ)
          → roles x ≡ table t way
          → length way < 2
          → h < 512
          → mem (slot x h) ≡ m.mem (slot x h)
      upper x way h rx short hh = rw (
          ==_of_ne (slot x h) (slot p (table_index page_shift va)) (
            slot-ne x p h (table_index page_shift va) (table_addr v x t way rx).0
              (table_addr v p t _ rp).0 hh (table_index-lt page_shift va)
              (ne_of_length v x p t t way _ rx rp (omega arith))))

      walk : lookup mem (root t) (indices va) ≡ d
      walk =
          lookup-link mem (root t) q (table_index lv1_shift va) (table_index lv2_shift va)
            (table_index page_shift va ∷ [])
            (upper (root t) [] (table_index lv1_shift va) (v.rooted t has) (omega arith)
                (table_index-lt lv1_shift va)
              ∙ to_q)
            (table_addr v q t _ rq).0 (table_addr v q t _ rq).1
          ∙ lookup-link mem q p (table_index lv2_shift va) (table_index page_shift va) []
              (upper q _ (table_index lv2_shift va) rq (omega arith) (table_index-lt lv2_shift va)
                ∙ to_p)
              (table_addr v p t _ rp).0 (table_addr v p t _ rp).1
          ∙ rw (==_refl (slot p (table_index page_shift va)))

      here : (u va' : ℕ) → u ≡ t → page_number va' ≡ page_number va → translate mem (root u) va' ≡ d
      here u va' same_task same_page =
          ap (λ x. translate mem (root x) va') same_task
          ∙ rw (==_of_ne (root t) 0 has)
              (ap (lookup mem (root t)) (indices-page_number va va' same_page) ∙ walk)

      elsewhere :
          (u va' : ℕ)
          → ¬ ((u ≡ t) × (page_number va' ≡ page_number va))
          → translate mem (root u) va' ≡ translate m.mem (root u) va'
      elsewhere u va' differ = elim (Bool-cases (root u == 0)) [
        | inl none ↦ rw none
        | inr some ↦ rw some (
            lookup-store_leaf v p t (table_index page_shift va) d _ rp refl
              (table_index-lt page_shift va) (indices va') (root u) u []
              (v.rooted u (λ z. cc (some, ap (λ (x : ℕ). x == 0) z))) refl (indices-Small va')
              (λ same. differ (same.0, page_number-indices va va' same.1)))
      ]

-- What `map_stage2_page` promises for the descriptor `d` of task `t` at `va`: the invariant, and
-- the translations of every task, at every address.
pub record Mapped (root : ℕ → ℕ) (m : Machine) (t va d : ℕ) (out : Mm × Machine) : Type 0 where
  pub roles' : Roles
  pub tree : IsTree roles' (point root t out.0.first_table) out.1
  pub found :
      (u va' : ℕ)
      → translate out.1.mem (point root t out.0.first_table u) va'
        ≡ (if is_page t va u va' then d else translate m.mem (root u) va')
  pub pages : free_pages m ≤ free_pages out.1 + 3

count_table-first : (new : Bool) (mm : Mm) → (count_table new mm).first_table ≡ mm.first_table
unfolding count_table
count_table-first new mm = ground arith

-- `map_stage2_page` where no PANIC is called.
map_stage2_page_alive : Machine → Mm → (va page flags : ℕ) → Mm × Machine
unfolding map_stage2_table_entry
map_stage2_page_alive m mm va page flags =
    let (mm₁, m₁) = ensure_first_table m mm in
    let (lv2_table, new₂, m₂) = map_stage2_table m₁ mm₁.first_table lv1_shift va in
    let (lv3_table, new₃, m₃) = map_stage2_table m₂ lv2_table lv2_shift va in
    let mm₃ = count_table new₃ (count_table new₂ mm₁) in
    (
      record mm₃ { user_pages_count = mm₃.user_pages_count + 1 },
      map_stage2_table_entry m₃ lv3_table va page flags,
    )

-- With three free pages, mapping an aligned page at `va` for task `t` keeps the invariant of all
-- tables. Task `t` then finds the page with its flags at the page of `va`, and every task finds
-- what it found before at every other page.
pub map_stage2_page-Mapped :
    {roles : Roles} {root : ℕ → ℕ} {m : Machine} (mm : Mm) (t va page flags : ℕ)
    → IsTree roles root m
    → root t ≡ mm.first_table
    → 2 < free_pages m
    → page % page_size ≡ 0
    → flags < page_size
    → Mapped root m t va (page + flags) (map_stage2_page m mm va page flags)
unfolding map_stage2_page map_stage2_page_alive map_stage2_table_entry
map_stage2_page-Mapped {roles} {root} {m} mm t va page flags v at_t enough aligned small =
    let first = ensure_first_table-Rooted v mm t at_t (omega arith) in
    let p₁ : ℕ = (ensure_first_table m mm).0.first_table in
    let here : point root t p₁ t ≡ p₁ = rw (==_refl t) in
    let positive : 0 < p₁ = (table_addr first.tree p₁ t [] first.first).2 in
    let second =
      map_stage2_table-Followed first.tree p₁ t lv1_shift va [] first.first (omega arith)
        (omega (arith, first.pages)) in
    let third =
      map_stage2_table-Followed second.tree _ t lv2_shift va _ second.child (omega arith)
        (omega (arith, first.pages, second.pages)) in
    let has : point root t p₁ t ≢ 0 = λ z. omega (arith, here, z, positive) in
    let to_q =
      third.extends.entry p₁ t [] (table_index lv1_shift va)
        (second.extends.keeps p₁ t [] first.first) (table_index-lt lv1_shift va)
        (λ z. omega (arith, second.linked, z))
      ∙ second.linked in
    let written =
      store_leaf-Written third.tree t va (bit_or page flags) _ _ has (rw here to_q)
        (third.extends.keeps _ t _ second.child) third.linked third.child in
    let counted = count_table-first _ _ ∙ count_table-first _ _ in
    subst (Mapped root m t va (page + flags)) (sym (if_false _ _ _ third.tree.pool.alive)) (record {
      roles' = third.roles';
      tree =
          subst
            (λ x. IsTree third.roles' (point root t x) (map_stage2_page_alive m mm va page flags).1)
            (sym counted) written.tree;
      found = λ u va'.
          ap
            (λ x. translate (map_stage2_page_alive m mm va page flags).1.mem (point root t x u) va')
            counted
          ∙ written.found u va'
          ∙ ap₂ (λ d e. if is_page t va u va' then d else e) (descriptor page flags aligned small)
              (translate-same second.tree third.extends u va'
                ∙ translate-same first.tree second.extends u va'
                ∙ first.same u va');
      pages = omega (arith, first.pages, second.pages, third.pages);
    })
