-- ===== src/Lrtos/Rounds.antt =====
-- The loop of _schedule: two rounds are enough, and the place that it chooses holds a task.
use avisor.Prelude.{
  ℕ, zero, suc, ◌+◌, ◌*◌, ◌/◌, ◌^◌, ◌≤◌, leb, ◌<◌, ◌≡◌, ◌⊎◌, inl, inr, refl, sym, ◌∙◌, ap, arith,
  Bool, true, false, Option, none, some, List, [], ◌∷◌, if◌then◌else◌, Bool-cases,
}
use avisor.Prelude.Int.{ℤ, pos, negsuc, gtb, to_int-pos}
use avisor.Lrtos.Counter.{recharged}
use avisor.Lrtos.{
  GuestTask, place, is_runnable, improves, better_of, best_at, search_tasks, recharge_tasks,
  is_nonzero, choose_next,
}

-- A counter is at most twice the priority.
abbrev pub IsBelow : ℤ → (priority : ℕ) → Type 0
IsBelow (pos n) priority = n ≤ 2 * priority
IsBelow (negsuc n) priority = Unit {0}

-- The task has a priority, twice of which an `int` holds, and its counter is at most that.
abbrev pub IsTimed : GuestTask → Type 0
IsTimed t = (0 < t.priority) × (t.priority < 2 ^ 30) × IsBelow t.counter t.priority

abbrev pub HasPriority : Option GuestTask → Type 0
HasPriority none = Unit {0}
HasPriority (some t) = IsTimed t

abbrev pub HavePriority : List (Option GuestTask) → Type 0
HavePriority [] = Unit {0}
HavePriority (p ∷ ps) = HasPriority p × HavePriority ps

recharged-IsBelow :
    (c : ℤ) (priority : ℕ) → IsBelow c priority → IsBelow (recharged c priority) priority
recharged-IsBelow (pos n) priority h = omega arith
recharged-IsBelow (negsuc n) priority h = elim (Bool-cases (leb (n / 2 + 1) priority)) [
  | inl e ↦ rw e (omega arith)
  | inr e ↦ rw e tt
]

pub recharged-IsTimed :
    (t : GuestTask) → IsTimed t → IsTimed (record t { counter = recharged t.counter t.priority })
recharged-IsTimed t h = (h.0, h.1, recharged-IsBelow t.counter t.priority h.2)

recharge_tasks-HavePriority :
    (ps : List (Option GuestTask)) → HavePriority ps → HavePriority (recharge_tasks ps)
unfolding recharge_tasks
recharge_tasks-HavePriority [] h = tt
recharge_tasks-HavePriority (none ∷ ps) h = (tt, recharge_tasks-HavePriority ps h.1)
recharge_tasks-HavePriority (some t ∷ ps) h =
    (recharged-IsTimed t h.0, recharge_tasks-HavePriority ps h.1)

-- Above 0.
abbrev IsPositive : ℤ → Type 0
IsPositive c = gtb c (pos 0) ≡ true

better_of-IsPositive :
    (running : Bool) (counter c : ℤ) (priority : ℕ)
    → priority < 2 ^ 30
    → IsBelow counter priority
    → IsPositive c
    → IsPositive (better_of running counter c)
unfolding better_of
better_of-IsPositive false counter c priority fits below h = h
better_of-IsPositive true (pos a) (pos b) priority fits below h =
    rw (to_int-pos a (omega arith)) (ground arith)
better_of-IsPositive true (negsuc a) (pos b) priority fits below h = h
better_of-IsPositive true counter (negsuc b) priority fits below h = cc

best_at-IsPositive :
    (p : Option GuestTask) (c : ℤ) → HasPriority p → IsPositive c → IsPositive (best_at p c)
best_at-IsPositive none c timed h = h
best_at-IsPositive (some t) c timed h =
    better_of-IsPositive (is_runnable t) t.counter c t.priority timed.1 timed.2 h

-- A search that starts above 0 ends above 0.
search-IsPositive :
    (ps : List (Option GuestTask)) (i : ℕ) (c : ℤ) (next : ℕ)
    → HavePriority ps
    → IsPositive c
    → IsPositive (search_tasks ps i c next).0
unfolding search_tasks
search-IsPositive [] i c next timed h = h
search-IsPositive (p ∷ ps) i c next timed h =
    search-IsPositive ps (i + 1) (best_at p c) _ timed.1 (best_at-IsPositive p c timed.0 h)

-- A place leaves -1 as it is, or brings `c` above 0, or does so after a recharge.
better_of-cases :
    (running : Bool) (counter : ℤ) (priority : ℕ)
    → 0 < priority
    → priority < 2 ^ 30
    → IsBelow counter priority
    → (better_of running counter (negsuc 0) ≡ negsuc 0)
      ⊎ (IsPositive (better_of running counter (negsuc 0))
          ⊎ ((c : ℤ) → IsPositive (better_of running (recharged counter priority) c)))
unfolding better_of
better_of-cases false counter priority h fits below = inl refl
better_of-cases true (negsuc n) priority h fits below = inl (ground arith)
better_of-cases true (pos zero) priority h fits below = inr (inr (above priority h fits))
  where
    above :
        (priority' : ℕ)
        → 0 < priority'
        → priority' < 2 ^ 30
        → (c : ℤ) → IsPositive (better_of true (recharged (pos 0) priority') c)
    above priority' h' fits' (pos b) =
        rw (to_int-pos (0 / 2 + priority') (omega arith)) (ground arith)
    above priority' h' fits' (negsuc b) =
        rw (to_int-pos (0 / 2 + priority') (omega arith)) (ground arith)
better_of-cases true (pos (suc n)) priority h fits below =
    inr (inl (rw (to_int-pos (suc n) (omega arith)) (ground arith)))

-- When a search from -1 ends at 0, the one after the recharge ends above 0.
search-recharged :
    (ps : List (Option GuestTask)) (i i' : ℕ) (c' : ℤ) (next next' : ℕ)
    → HavePriority ps
    → (search_tasks ps i (negsuc 0) next).0 ≡ pos 0
    → IsPositive (search_tasks (recharge_tasks ps) i' c' next').0
unfolding search_tasks recharge_tasks
search-recharged [] i i' c' next next' h e = cc
search-recharged (none ∷ ps) i i' c' next next' h e =
    search-recharged ps (i + 1) (i' + 1) c' _ _ h.1 e
search-recharged (some t ∷ ps) i i' c' next next' h e =
    elim (better_of-cases (is_runnable t) t.counter t.priority h.0.0 h.0.1 h.0.2) [
      | inl kept ↦ search-recharged ps (i + 1) (i' + 1) _ _ _ h.1 (
          ap
            (λ (u : ℤ).
              (search_tasks ps (i + 1) u (if improves (some t) (negsuc 0) then i else next)).0)
            (sym kept)
          ∙ e)
      | inr (inl up) ↦ absurd (not_both _ e (search-IsPositive ps (i + 1) _ _ h.1 up))
      | inr (inr later) ↦
          search-IsPositive (recharge_tasks ps) (i' + 1) _ _ (recharge_tasks-HavePriority ps h.1)
            (later c')
    ]
  where
    not_both : (c : ℤ) → c ≡ pos 0 → IsPositive c → ⊥
    not_both c z p' = ground arith

nonzero_of_IsPositive : (c : ℤ) → IsPositive c → is_nonzero c ≡ true
nonzero_of_IsPositive (pos n) h = ground arith
nonzero_of_IsPositive (negsuc n) h = refl

zero_of_test : (c : ℤ) → is_nonzero c ≡ false → c ≡ pos 0
zero_of_test (pos n) h = ground arith
zero_of_test (negsuc n) h = cc

-- The place that a search chooses is the given one, or holds a task.
search-place :
    (ps : List (Option GuestTask)) (i : ℕ) (c : ℤ) (next : ℕ)
    → ((search_tasks ps i c next).1 ≡ next)
      ⊎ ((j : ℕ) × (t : GuestTask) × ((search_tasks ps i c next).1 ≡ i + j) × (place ps j ≡ some t))
unfolding search_tasks
search-place [] i c next = inl refl
search-place (none ∷ ps) i c next = elim (search-place ps (i + 1) c next) [
  | inl e ↦ inl e
  | inr (j, t, e, h) ↦ inr (suc j, t, omega (arith, e), h)
]
search-place (some t ∷ ps) i c next =
    let next' = if improves (some t) c then i else next in
    elim (search-place ps (i + 1) (best_at (some t) c) next') [
      | inr (j, u, e, h) ↦ inr (suc j, u, omega (arith, e), h)
      | inl e ↦ elim (Bool-cases (improves (some t) c)) [
        | inl b ↦ inr (0, t, e ∙ (rw b (omega arith)), refl)
        | inr b ↦ inl (e ∙ (rw b))
      ]
    ]

chosen :
    (ps : List (Option GuestTask))
    → ((search_tasks ps 0 (negsuc 0) 0).1 ≡ 0)
      ⊎ ((t : GuestTask) × (place ps (search_tasks ps 0 (negsuc 0) 0).1 ≡ some t))
chosen ps = elim (search-place ps 0 (negsuc 0) 0) [
  | inl e ↦ inl e
  | inr (j, t, e, h) ↦ inr (t, ap (place ps) (e ∙ (omega arith)) ∙ h)
]

-- The tasks as they are, or recharged.
pub data Recharged (ps : List (Option GuestTask)) : List (Option GuestTask) → Type 0 where
  same : Recharged ps ps
  again : Recharged ps (recharge_tasks ps)

-- Two rounds are enough where every task has a priority: a place is chosen, which is 0 or holds a
-- task, and the tasks are as they were or recharged.
pub choose_next-two :
    (ps : List (Option GuestTask))
    → HavePriority ps
    → (next : ℕ) × (qs : List (Option GuestTask)) × (choose_next 2 ps ≡ some (next, qs))
      × Recharged ps qs
      × ((next ≡ 0) ⊎ ((t : GuestTask) × (place qs next ≡ some t)))
unfolding choose_next
choose_next-two ps h = elim (Bool-cases (is_nonzero (search_tasks ps 0 (negsuc 0) 0).0)) [
  | inl e ↦ (_, ps, rw e, same, chosen ps)
  | inr e ↦
      let more =
        nonzero_of_IsPositive (search_tasks (recharge_tasks ps) 0 (negsuc 0) 0).0
          (search-recharged ps 0 0 (negsuc 0) 0 0 h (zero_of_test _ e)) in
      (_, recharge_tasks ps, (rw (e, more)), again, chosen (recharge_tasks ps))
]
