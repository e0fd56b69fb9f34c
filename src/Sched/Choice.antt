-- ===== src/Sched/Choice.antt =====
-- `_schedule` as a whole: it ends, and what it chooses.
use mathlib.Core.Path.{subst}
use avisor.Prelude.{
  ℕ, zero, suc, ◌+◌, ◌<◌, ◌≡◌, ◌⊎◌, inl, inr, refl, ap, ◌∙◌, arith, Bool, true, false, not, ◌&&◌,
  ◌||◌, Option, none, some, List, [], ◌∷◌, ◌==◌, if◌then◌else◌, ltb, Bool-cases,
}
use avisor.Task.{Task}
use avisor.Sched.{task_at, is_running, is_final, recharge_task, recharge, choose, rounds_enough}
use avisor.Sched.Select.{
  search, as_int, is_int, select-search, NoneBetter, IsBest, Selected, kept, chosen,
  search-Selected,
}

-- A task that runs has a priority, so that recharging gives it time.
abbrev pub has_priority : Option Task → Bool
has_priority none = true
has_priority (some t) = not (is_running t) || ltb 0 t.priority

abbrev pub AllHavePriority : List (Option Task) → Type 0
AllHavePriority ps = (i : ℕ) → has_priority (task_at ps i) ≡ true

-- An `int` holds the counter of a task that runs, now and after a recharge.
abbrev pub stays_int : Option Task → Bool
stays_int p = is_int p && is_int (recharge_task p)

abbrev pub AllStayInt : List (Option Task) → Type 0
AllStayInt ps = (i : ℕ) → stays_int (task_at ps i) ≡ true

-- The outcome of the loop: nothing runs, and place 0 is taken, or the best of the running tasks,
-- with time left, after a recharge if no running task had any.
pub data Choice (ps : List (Option Task)) (out : Option (ℕ × List (Option Task))) : Type 0 where
  idle : out ≡ some (0, ps) → NoneBetter ps none → Choice ps out
  best :
      (next : ℕ) (qs : List (Option Task)) (t : Task)
      → out ≡ some (next, qs)
      → (qs ≡ ps) ⊎ ((qs ≡ recharge ps) × NoneBetter ps (some 0))
      → IsBest qs next t
      → 0 < t.counter
      → Choice ps out

pub task_at-recharge :
    (ps : List (Option Task)) (i : ℕ) → task_at (recharge ps) i ≡ recharge_task (task_at ps i)
unfolding recharge
task_at-recharge [] i = refl
task_at-recharge (p ∷ ps) zero = refl
task_at-recharge (p ∷ ps) (suc i) = task_at-recharge ps i

-- After a recharge some running task has time.
after_recharge :
    (ps : List (Option Task)) (j : ℕ) (t : Task)
    → AllHavePriority ps
    → task_at ps j ≡ some t
    → is_running t ≡ true
    → (out : Option ℕ × ℕ) → Selected (recharge ps) 0 none 0 out
    → (u : Task) × (is_final (as_int out.0) ≡ true) × IsBest (recharge ps) out.1 u × (0 < u.counter)
after_recharge ps j t prio holds runs out (kept e n) =
    absurd (ground (arith, n j, task_at-recharge ps j))
after_recharge ps j t prio holds runs out (chosen k u e x b) =
    let left : 0 < u.counter = ground (arith, b.none_better j, task_at-recharge ps j, prio j) in
    (u, ground arith, subst (λ i. IsBest (recharge ps) i u) (ground arith) b, left)

second : (a b : Bool) → (a && b) ≡ true → b ≡ true
second true b q = q
second false b q = cc

-- Where every running task has a priority, and the counters of running tasks fit an `int` now and
-- after a recharge, `_schedule` ends after at most two rounds of its loop. If no task runs it
-- chooses place 0 and leaves all counters. Otherwise it chooses a running task with time left, the
-- first of those whose counter is highest, and the counters are those before or, if no running task
-- had time left, those after one recharge.
pub choose-Choice :
    (ps : List (Option Task))
    → AllHavePriority ps
    → AllStayInt ps
    → Choice ps (choose rounds_enough ps)
unfolding choose
choose-Choice ps prio fits =
    rw
      (
        select-search ps 0 none 0 (λ i. ground (arith, fits i)),
        select-search (recharge ps) 0 none 0 later,
      )
      (first (search ps 0 none 0) (search-Selected ps 0 none 0))
  where
    later : (j : ℕ) → is_int (task_at (recharge ps) j) ≡ true
    later j =
        ap is_int (task_at-recharge ps j)
        ∙ second (is_int (task_at ps j)) (is_int (recharge_task (task_at ps j))) (fits j)

    again : Option (ℕ × List (Option Task))
    again =
        let out = search (recharge ps) 0 none 0 in
        if is_final (as_int out.0) then some (out.1, recharge ps) else none

    first :
        (out : Option ℕ × ℕ)
        → Selected ps 0 none 0 out
        → Choice ps (if is_final (as_int out.0) then some (out.1, ps) else again)
    first out (kept e n) = rw e (idle refl n)
    first out (chosen j t e x b) = elim (Bool-cases (t.counter == 0)) [
      | inl spent ↦
          let (u, final, b', left) =
            after_recharge ps j t prio b.holds (ground arith) (search (recharge ps) 0 none 0)
              (search-Selected (recharge ps) 0 none 0) in
          rw (e, spent, final)
            (best _ (recharge ps) u refl (inr (refl, λ i. ground (arith, b.none_better i))) b' left)
      | inr left ↦
          rw (e, left)
            (best (0 + j) ps t refl (inl refl) (subst (λ i. IsBest ps i t) (omega arith) b)
              (ground arith))
    ]
