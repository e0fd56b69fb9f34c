-- ===== src/Sched/Bounds.antt =====
-- The scheduler never hangs, and its counters stay within twice the priorities.
use avisor.Prelude.{
  ℕ, zero, suc, ◌-◌, ◌*◌, ◌^◌, ◌≡◌, ◌⊎◌, inl, inr, refl, ap, ◌∙◌, arith, Bool, true, false, ◌&&◌,
  Option, none, some, List, [], ◌∷◌, ◌==◌, if◌then◌else◌, ltb, leb, set, Bool-cases, Option-cases,
  ==_iff,
}
use avisor.Task.{Task, zombie}
use avisor.Sched.{
  System, Event, tick, yield, exits, step, run, time_left, task_at, recharge_task, recharge, choose,
  rounds_enough, switch_to, schedule_next, update_task, schedule, exit_task, timer_tick,
}
use avisor.Sched.Choice.{
  has_priority, AllHavePriority, stays_int, AllStayInt, Choice, idle, best, choose-Choice,
  task_at-recharge,
}

-- The task has a priority, twice of which an `int` holds, and its counter is at most that.
abbrev pub is_fine : Option Task → Bool
is_fine none = true
is_fine (some t) = ltb 0 t.priority && (ltb t.priority (2 ^ 30) && leb t.counter (2 * t.priority))

abbrev pub is_task : Option Task → Bool
is_task none = false
is_task (some t) = true

pub record IsValid (s : System) : Type 0 where
  pub fine : (i : ℕ) → is_fine (task_at s.task i) ≡ true
  pub here : is_task (task_at s.task s.current) ≡ true
  pub init : is_task (task_at s.task 0) ≡ true

task_at-set :
    (ps : List (Option Task)) (i j : ℕ) (p : Option Task)
    → is_task (task_at ps i) ≡ true
    → task_at (set ps i p) j ≡ (if i == j then p else task_at ps j)
task_at-set [] i j p h = cc h
task_at-set (q ∷ ps) zero zero p h = ground arith
task_at-set (q ∷ ps) zero (suc j) p h = ground arith
task_at-set (q ∷ ps) (suc i) zero p h = ground arith
task_at-set (q ∷ ps) (suc i) (suc j) p h = ground (arith, task_at-set ps i j p h)

-- An update that keeps the task at its place fine keeps the system valid.
pub task_at-update :
    (s : System) (i j : ℕ) (f : Task → Task) (t : Task)
    → task_at s.task i ≡ some t
    → task_at (update_task s i f).task j ≡ (if i == j then some (f t) else task_at s.task j)
unfolding update_task
task_at-update s i j f t e = rw (e, update_task) (task_at-set s.task i j (some (f t)) (rw e))

pub update_task-IsValid :
    (s : System) (f : Task → Task)
    → ((t : Task) → is_fine (some t) ≡ true → is_fine (some (f t)) ≡ true)
    → IsValid s
    → IsValid (update_task s s.current f)
unfolding update_task
update_task-IsValid s f keep v = elim (Option-cases (task_at s.task s.current)) [
  | inl e ↦ rw (e, update_task) v
  | inr (t, e) ↦
      rw (e, update_task)
        (record {
          fine = λ i. ground (arith, at_place t e i, v.fine i, keep t, v.fine s.current);
          here = ground (arith, at_place t e s.current);
          init = ground (arith, at_place t e 0, v.init);
        })
]
  where
    at_place :
        (t : Task)
        → task_at s.task s.current ≡ some t
        → (i : ℕ)
        → task_at (set s.task s.current (some (f t))) i
          ≡ (if s.current == i then some (f t) else task_at s.task i)
    at_place t e i = task_at-set s.task s.current i (some (f t)) v.here

recharge_task-fine : (p : Option Task) → is_fine p ≡ true → is_fine (recharge_task p) ≡ true
recharge_task-fine none h = refl
recharge_task-fine (some t) h = ground arith

recharge_task-is_task : (p : Option Task) → is_task (recharge_task p) ≡ is_task p
recharge_task-is_task none = refl
recharge_task-is_task (some t) = refl

fine_priority : (p : Option Task) → is_fine p ≡ true → has_priority p ≡ true
fine_priority none h = refl
fine_priority (some t) h = ground arith

pub IsValid-priority : {s : System} → IsValid s → AllHavePriority s.task
IsValid-priority {s} v i = fine_priority (task_at s.task i) (v.fine i)

fine_int : (p : Option Task) → is_fine p ≡ true → stays_int p ≡ true
fine_int none h = refl
fine_int (some t) h = ground arith

pub IsValid-int : {s : System} → IsValid s → AllStayInt s.task
IsValid-int {s} v i = fine_int (task_at s.task i) (v.fine i)

-- `switch_to` sets `current` in either case.
pub switch_to_lem : (s : System) (next : ℕ) → switch_to s next ≡ record s { current = next }
unfolding switch_to
switch_to_lem s next = ground (arith, ==_iff s.current next)

switched-IsValid :
    (s : System) (next : ℕ) (qs : List (Option Task))
    → IsValid s
    → (qs ≡ s.task) ⊎ (qs ≡ recharge s.task)
    → is_task (task_at qs next) ≡ true
    → IsValid (record s { task = qs; current = next })
switched-IsValid s next qs v (inl e) h = record {
  fine = λ i. ap (λ q. is_fine (task_at q i)) e ∙ v.fine i;
  here = h;
  init = ap (λ q. is_task (task_at q 0)) e ∙ v.init;
}
switched-IsValid s next qs v (inr e) h = record {
  fine = λ i.
      ap (λ q. is_fine (task_at q i)) e
      ∙ ap is_fine (task_at-recharge s.task i)
      ∙ recharge_task-fine (task_at s.task i) (v.fine i);
  here = h;
  init =
      ap (λ q. is_task (task_at q 0)) e
      ∙ ap is_task (task_at-recharge s.task 0)
      ∙ recharge_task-is_task (task_at s.task 0)
      ∙ v.init;
}

pub schedule_next-IsValid :
    (s : System) → IsValid s → (s' : System) × (schedule_next s ≡ some s') × IsValid s'
unfolding schedule_next
schedule_next-IsValid s v = go (choose-Choice s.task (IsValid-priority v) (IsValid-int v))
  where
    go :
        Choice s.task (choose rounds_enough s.task)
        → (s' : System) × (schedule_next s ≡ some s') × IsValid s'
    go (idle e n) = (
      record s { current = 0 },
      rw (e, schedule_next) (ap some (switch_to_lem s 0)),
      switched-IsValid s 0 s.task v (inl refl) v.init,
    )
    go (best next qs t e from b left) = (
      record s { task = qs; current = next },
      rw (e, schedule_next) (ap some (switch_to_lem (record s { task = qs }) next)),
      switched-IsValid s next qs v (elim from [ inl f ↦ inl f | inr f ↦ inr f.0 ]) (rw (b.holds)),
    )

abbrev pub stopped : System → System
stopped s = update_task s s.current (λ t. record t { counter = 0 })

pub schedule-IsValid :
    (s : System) → IsValid s → (s' : System) × (schedule s ≡ some s') × IsValid s'
unfolding schedule
schedule-IsValid s v =
    schedule_next-IsValid (stopped s) (update_task-IsValid s _ (λ t h. ground arith) v)

-- Each event takes a valid system to a valid system: the loop of `_schedule` ends, and no counter
-- exceeds twice its task's priority.
step-IsValid :
    (s : System) (e : Event) → IsValid s → (s' : System) × (step s e ≡ some s') × IsValid s'
unfolding step timer_tick exit_task
step-IsValid s tick v =
    let s₁ = update_task s s.current (λ t. record t { counter = t.counter - 1 }) in
    let v₁ : IsValid s₁ = update_task-IsValid s _ (λ t h. ground arith) v in
    elim (Bool-cases (ltb 0 (time_left s₁))) [
      | inl more ↦ (s₁, rw more, v₁)
      | inr out ↦ let (s', e, v') = schedule-IsValid s₁ v₁ in (s', rw out e, v')
    ]
step-IsValid s yield v = schedule-IsValid s v
step-IsValid s exits v =
    schedule-IsValid _ (update_task-IsValid s (λ t. record t { state = zombie }) (λ t h. h) v)

-- From a valid system every sequence of timer interrupts, waits and ends of tasks runs through: no
-- call of the scheduler hangs, and in the end each task has a priority and a counter of at most
-- twice that, and `current` and place 0 hold tasks. In a valid system all of this holds already, and
-- the priorities are below 2^30, so that an `int` holds the counters.
pub run-IsValid :
    (es : List Event) (s : System) → IsValid s → (s' : System) × (run s es ≡ some s') × IsValid s'
unfolding run
run-IsValid [] s v = (s, refl, v)
run-IsValid (e ∷ es) s v =
    let (s₁, e₁, v₁) = step-IsValid s e v in
    let (s₂, e₂, v₂) = run-IsValid es s₁ v₁ in (s₂, rw (e₁, run) e₂, v₂)
