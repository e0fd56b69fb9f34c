-- ===== src/Sched/Select.antt =====
-- The search of `_schedule`: the first running task with the highest counter.
use avisor.Prelude.{
  ℕ, zero, suc, ◌+◌, ◌<◌, ◌≡◌, inl, inr, refl, arith, Bool, true, false, not, ◌&&◌, ◌||◌,
  if◌then◌else◌, ◌^◌, Option, none, some, List, [], ◌∷◌, ltb, leb, Bool-cases,
}
use avisor.Task.{Task, running}
use avisor.Prelude.Int.{ℤ, pos, negsuc, to_int-pos}
use avisor.Sched.{task_at, is_running, is_better, best_of, select}

-- `none` is the first value -1 of `c`, which every counter exceeds.
abbrev pub exceeds : ℕ → Option ℕ → Bool
exceeds counter none = true
exceeds counter (some c) = ltb c counter

abbrev pub beats : Option Task → Option ℕ → Bool
beats none c = false
beats (some t) c = is_running t && exceeds t.counter c

abbrev counter_of : Option Task → Option ℕ
counter_of none = none
counter_of (some t) = some t.counter

-- The search, where no counter is truncated.
pub search : List (Option Task) → (i : ℕ) → (c : Option ℕ) → (next : ℕ) → Option ℕ × ℕ
search [] i c next = (c, next)
search (p ∷ ps) i c next =
    let better = beats p c in
    search ps (i + 1) (if better then counter_of p else c) (if better then i else next)

abbrev pub as_int : Option ℕ → ℤ
as_int none = negsuc 0
as_int (some c) = pos c

-- An `int` holds the counter, if the task runs.
abbrev pub is_int : Option Task → Bool
is_int none = true
is_int (some t) = not (is_running t) || ltb t.counter (2 ^ 31)

is_better-beats : (p : Option Task) (c : Option ℕ) → is_better p (as_int c) ≡ beats p c
is_better-beats none c = refl
is_better-beats (some t) none = refl
is_better-beats (some t) (some c) = refl

best_of-counter_of :
    (p : Option Task) (c : Option ℕ)
    → is_int p ≡ true
    → best_of p (as_int c) ≡ as_int (if beats p c then counter_of p else c)
best_of-counter_of none c h = refl
best_of-counter_of (some t) none h = ground (arith, to_int-pos t.counter)
best_of-counter_of (some t) (some c) h = ground (arith, to_int-pos t.counter)

-- Where an `int` holds all counters, the search of the code is that one.
pub select-search :
    (ps : List (Option Task)) (i : ℕ) (c : Option ℕ) (next : ℕ)
    → ((j : ℕ) → is_int (task_at ps j) ≡ true)
    → select ps i (as_int c) next ≡ (as_int (search ps i c next).0, (search ps i c next).1)
unfolding select search
select-search [] i c next h = refl
select-search (p ∷ ps) i c next h =
    rw (is_better-beats p c, best_of-counter_of p c (h 0))
      (select-search ps (i + 1) (if beats p c then counter_of p else c)
        (if beats p c then i else next) (λ j. h (suc j)))

-- No running task of the list is better than `c`.
abbrev pub NoneBetter : List (Option Task) → Option ℕ → Type 0
NoneBetter ps c = (j : ℕ) → beats (task_at ps j) c ≡ false

-- `p` is a running task whose counter is at least `v`.
abbrev pub reaches : Option Task → ℕ → Bool
reaches none v = false
reaches (some t) v = is_running t && leb v t.counter

-- Place `j` holds a running task; none is better, and the earlier ones are worse.
pub record IsBest (ps : List (Option Task)) (j : ℕ) (t : Task) : Type 0 where
  pub holds : task_at ps j ≡ some t
  pub runs : t.state ≡ running
  pub none_better : NoneBetter ps (some t.counter)
  pub first : (k : ℕ) → (ltb k j && reaches (task_at ps k) t.counter) ≡ false

-- Either nothing of the list was better than `c`, or the best of it was chosen.
pub data Selected (ps : List (Option Task)) (i : ℕ) (c : Option ℕ) (next : ℕ) (out : Option ℕ × ℕ)
    : Type 0 where
  kept : out ≡ (c, next) → NoneBetter ps c → Selected ps i c next out
  chosen :
      (j : ℕ) (t : Task)
      → out ≡ (some t.counter, i + j)
      → exceeds t.counter c ≡ true
      → IsBest ps j t
      → Selected ps i c next out

not_reaches :
    (p : Option Task) (c : Option ℕ) (v : ℕ)
    → beats p c ≡ false
    → exceeds v c ≡ true
    → reaches p v ≡ false
not_reaches none c v h e = refl
not_reaches (some t) none v h e = ground arith
not_reaches (some t) (some c) v h e = ground arith

-- None before a place in the list, one entry further on.
first-cons :
    (p : Option Task) (ps : List (Option Task)) (j v : ℕ)
    → reaches p v ≡ false
    → ((k : ℕ) → (ltb k j && reaches (task_at ps k) v) ≡ false)
    → (k : ℕ) → (ltb k (suc j) && reaches (task_at (p ∷ ps) k) v) ≡ false
first-cons p ps j v h n zero = ground arith
first-cons p ps j v h n (suc k) = ground (arith, n k)

exceeds_trans : (v w : ℕ) (c : Option ℕ) → exceeds v c ≡ true → v < w → exceeds w c ≡ true
exceeds_trans v w none h lt = refl
exceeds_trans v w (some c) h lt = ground arith

NoneBetter-cons :
    (p : Option Task) (ps : List (Option Task)) (c : Option ℕ)
    → beats p c ≡ false
    → NoneBetter ps c
    → NoneBetter (p ∷ ps) c
NoneBetter-cons p ps c h n zero = h
NoneBetter-cons p ps c h n (suc j) = n j

beats_mono :
    (p : Option Task) (c : Option ℕ) (v : ℕ)
    → beats p c ≡ false
    → exceeds v c ≡ true
    → beats p (some v) ≡ false
beats_mono none c v h e = refl
beats_mono (some t) none v h e = ground arith
beats_mono (some t) (some c) v h e = ground arith

pub search-Selected :
    (ps : List (Option Task)) (i : ℕ) (c : Option ℕ) (next : ℕ)
    → Selected ps i c next (search ps i c next)
unfolding search
search-Selected [] i c next = kept refl (λ j. refl)
search-Selected (p ∷ ps) i c next = elim (Bool-cases (beats p c)) [
  | inl better ↦ rw better (take p better (search-Selected ps (i + 1) (counter_of p) i))
  | inr not_better ↦ rw not_better (skip not_better (search-Selected ps (i + 1) c next))
]
  where
    skip :
        {out : Option ℕ × ℕ}
        → beats p c ≡ false
        → Selected ps (i + 1) c next out
        → Selected (p ∷ ps) i c next out
    skip no_better (kept e n) = kept e (NoneBetter-cons p ps c no_better n)
    skip no_better (chosen j t e x b) = chosen (suc j) t (ground arith) x (record {
      holds = b.holds;
      runs = b.runs;
      none_better =
          NoneBetter-cons p ps (some t.counter) (beats_mono p c t.counter no_better x)
            b.none_better;
      first = first-cons p ps j t.counter (not_reaches p c t.counter no_better x) b.first;
    })

    take :
        (q : Option Task) {out : Option ℕ × ℕ}
        → beats q c ≡ true
        → Selected ps (i + 1) (counter_of q) i out
        → Selected (q ∷ ps) i c next out
    take none h s = cc h
    take (some t) h (kept e n) = chosen 0 t (ground arith) (ground arith) (record {
      holds = refl;
      runs = ground arith;
      none_better = NoneBetter-cons (some t) ps (some t.counter) (ground arith) n;
      first = λ k. ground arith;
    })
    take (some u) h (chosen j t e x b) =
        chosen (suc j) t (ground arith)
          (exceeds_trans u.counter t.counter c (ground arith) (ground arith))
          (record {
            holds = b.holds;
            runs = b.runs;
            none_better = NoneBetter-cons (some u) ps (some t.counter) (ground arith) b.none_better;
            first = first-cons (some u) ps j t.counter (ground arith) b.first;
          })
