-- ===== src/Lrtos/Steps.antt =====
-- Every step of lrtos keeps the preemption counts in order.
use avisor.Prelude.{
  ℕ, zero, suc, ◌+◌, ◌<◌, ◌≡◌, inl, inr, refl, sym, ◌∙◌, ap, arith, Bool, true, false, ◌||◌, none,
  some, ◌==◌, ltb, Bool-cases, length, set, ==_refl, ==_of_ne, length-set, lt→ltb,
}
use avisor.Prelude.Int.{ℤ, pos, negsuc}
use avisor.Lrtos.Counter.{decrement}
use avisor.Lrtos.Rounds.{IsTimed, IsBelow}
use avisor.Lrtos.{
  GuestTask, Guest, outside, forking, exiting, leaving, choosing, place, change_current,
  preempt_enable, keeps_running, tick_task, call_schedule, handle_timer_tick, begin_fork,
  store_task, end_fork, begin_exit, end_exit, new_task_of, guest_tasks, task_zombie,
}
use avisor.Lrtos.Preempt.{
  depth, IsValid, place-set, set-cases, change-IsValid, change-IsValid_same, phase-change_current,
  nr_tasks-change_current, true-ne-false,
}

pub call_schedule-IsValid : (g : Guest) → IsValid g → depth g.phase ≡ 0 → IsValid (call_schedule g)
unfolding call_schedule
call_schedule-IsValid g v d =
    let reset = λ (t : GuestTask). record t { counter = pos 0 } in
    let v' = change-IsValid_same g reset v (λ t. refl) (λ t h. (h.0, h.1, omega arith)) in
    change-IsValid (change_current g reset) _ choosing v'
      (λ t e. omega (arith, e, ap depth (phase-change_current g reset), d)) (λ t h. h)

decrement-IsBelow : (c : ℤ) (priority : ℕ) → IsBelow c priority → IsBelow (decrement c) priority
decrement-IsBelow (pos zero) priority h = tt
decrement-IsBelow (pos (suc n)) priority h = omega arith
decrement-IsBelow (negsuc n) priority h = tt

no_count : (t : GuestTask) → keeps_running t ≡ false → t.preempt_count ≡ 0
no_count t e = zero_of_test t.preempt_count (second _ _ e)
  where
    second : (a b : Bool) → (a || b) ≡ false → b ≡ false
    second false b q = q
    second true b q = cc

    zero_of_test : (n : ℕ) → ltb 0 n ≡ false → n ≡ 0
    zero_of_test n q = ground arith

pub handle_timer_tick-IsValid : (g : Guest) → IsValid g → IsValid (handle_timer_tick g)
unfolding handle_timer_tick tick_task
handle_timer_tick-IsValid g v =
    let count = λ (t : GuestTask). record t { counter = decrement t.counter } in
    let g' = change_current g count in
    let v' =
      change-IsValid_same g count v (λ t. refl)
        (λ t h. (h.0, h.1, decrement-IsBelow t.counter t.priority h.2)) in
    let (t, at) = v'.at_current in
    let own : t.preempt_count ≡ depth g'.phase =
      v'.counts g'.current t at ∙ (rw (==_refl g'.current)) in
    elim (Bool-cases (keeps_running t)) [
      | inl e ↦ rw (at, e) v'
      | inr e ↦ rw (at, e) (call_schedule-IsValid g' v' (sym own ∙ no_count t e))
    ]

pub begin_fork-IsValid : (g : Guest) → IsValid g → g.phase ≡ outside → IsValid (begin_fork true g)
unfolding begin_fork
begin_fork-IsValid g v o =
    change-IsValid g _ forking v (λ t e. omega (arith, e, ap depth o)) (λ t h. h)

pub begin_exit-IsValid : (g : Guest) → IsValid g → g.phase ≡ outside → IsValid (begin_exit g)
unfolding begin_exit
begin_exit-IsValid g v o =
    change-IsValid g _ exiting v (λ t e. omega (arith, e, ap depth o)) (λ t h. h)

pub end_exit-IsValid : (g : Guest) → IsValid g → g.phase ≡ exiting → IsValid (end_exit g)
unfolding end_exit
end_exit-IsValid g v o =
    let die = λ (t : GuestTask). record t { state = task_zombie } in
    let v' = change-IsValid_same g die v (λ t. refl) (λ t h. h) in
    change-IsValid (change_current g die) _ leaving v'
      (λ t e. omega (arith, e, ap depth (phase-change_current g die), ap depth o)) (λ t h. h)

-- The first free place is not that of a task.
taken-ne :
    (g : Guest) (i : ℕ) (t : GuestTask)
    → IsValid g
    → place g.task i ≡ some t
    → (i == g.nr_tasks) ≡ false
taken-ne g i t v at =
    ==_of_ne i g.nr_tasks
      (λ q. some-ne-none t (sym at ∙ ap (place g.task) q ∙ v.beyond g.nr_tasks (omega arith)))
  where
    some-ne-none : (x : GuestTask) → some x ≡ none → ⊥
    some-ne-none x q = cc

new_task_of-IsTimed : (t : GuestTask) → IsTimed t → IsTimed (new_task_of t)
unfolding new_task_of
new_task_of-IsTimed t h = (h.0, h.1, omega arith)

new_task-IsValid :
    (g : Guest) (t : GuestTask)
    → IsValid g
    → place g.task g.current ≡ some t
    → g.nr_tasks < guest_tasks
    → IsValid (record g {
      task = set g.task g.nr_tasks (some (new_task_of t));
      nr_tasks = g.nr_tasks + 1;
    })
unfolding new_task_of
new_task-IsValid g t v at room =
    let n = g.nr_tasks in
    let u = new_task_of t in
    let inside : n < length g.task = omega (arith, v.size) in
    let look = λ (j : ℕ). place-set g.task n j (some u) inside in
    let other = λ (j : ℕ) (b : (j == n) ≡ true).
      ==_of_ne j g.current
        (λ q. true-ne-false (sym b ∙ ap (λ (x : ℕ). x == n) q ∙ taken-ne g g.current t v at)) in
    record {
      counts = λ j t' e. elim (set-cases g.task n j u t' inside e) [
        | inl (b, q) ↦ ap (λ (x : GuestTask). x.preempt_count) (sym q) ∙ (rw (other j b))
        | inr (b, h) ↦ v.counts j t' h
      ];
      timed = λ j t' e. elim (set-cases g.task n j u t' inside e) [
        | inl (b, q) ↦ rw (← q) (new_task_of-IsTimed t (v.timed g.current t at))
        | inr (b, h) ↦ v.timed j t' h
      ];
      at_current = (t, look g.current ∙ (rw (taken-ne g g.current t v at) at));
      at_first =
          (v.at_first.0, look 0 ∙ (rw (taken-ne g 0 v.at_first.0 v v.at_first.1) v.at_first.1));
      beyond = λ j le. look j ∙ (rw (==_of_ne j n (λ q. omega arith)) (v.beyond j (omega arith)));
      size = length-set g.task n (some u) ∙ v.size;
    }

-- A new task, at the first free place.
store_task-IsValid :
    (g : Guest)
    → IsValid g
    → g.nr_tasks < guest_tasks
    → (g' : Guest) × (store_task g (place g.task g.current) ≡ some g')
      × IsValid g'
      × (g'.phase ≡ g.phase)
      × (g'.nr_tasks ≡ g.nr_tasks + 1)
unfolding store_task new_task_of
store_task-IsValid g v room =
    let (t, at) = v.at_current in
    rw (at, lt→ltb _ _ room) (_, refl, new_task-IsValid g t v at room, refl, refl)

pub end_fork-IsValid :
    (g : Guest)
    → IsValid g
    → g.phase ≡ forking
    → g.nr_tasks < guest_tasks
    → (g' : Guest) × (end_fork g ≡ some g')
      × IsValid g'
      × (g'.nr_tasks ≡ g.nr_tasks + 1)
      × (g'.phase ≡ outside)
unfolding end_fork
end_fork-IsValid g v o room =
    let (g', e, v', p, n) = store_task-IsValid g v room in
    (
      record (preempt_enable g') { phase = outside },
      (rw e),
      change-IsValid g' _ outside v' (λ t c. omega (arith, c, ap depth p, ap depth o)) (λ t h. h),
      nr_tasks-change_current g' _ ∙ n,
      refl,
    )
