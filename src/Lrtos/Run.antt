-- ===== src/Lrtos/Run.antt =====
-- Runs of lrtos: calls of the tasks, steps of the kernel and ticks in any order.
use avisor.Prelude.{
  ℕ, ◌+◌, ◌-◌, ◌≤◌, ◌≡◌, inl, inr, refl, ◌∙◌, ap, arith, Bool, true, false, not, ◌&&◌, Option, none,
  some, List, [], ◌∷◌, ◌==◌, Bool-cases,
}
use avisor.Lrtos.Counter.{decrement}
use avisor.Lrtos.{
  GuestTask, Guest, Phase, outside, forking, exiting, leaving, choosing, resuming, place,
  change_current, preempt_enable, keeps_running, tick_task, call_schedule, handle_timer_tick,
  begin_fork, begin_exit, end_exit, advance, GuestEvent, ticks, moves, yields, exits, forks,
  guest_step, go_on, guest_run, guest_tasks, is_outside, task_zombie,
}
use avisor.Lrtos.Preempt.{
  depth, IsValid, change-IsValid, nr_tasks-change_current, phase-change_current,
}
use avisor.Lrtos.Switching.{switch_task-IsValid}
use avisor.Lrtos.Steps.{
  call_schedule-IsValid, handle_timer_tick-IsValid, begin_fork-IsValid, begin_exit-IsValid,
  end_exit-IsValid, end_fork-IsValid,
}

-- The places of `task` that are taken, or will be by the copy_process that runs.
abbrev pub pending : Phase → ℕ
pending forking = 1
pending outside = 0
pending exiting = 0
pending leaving = 0
pending choosing = 0
pending resuming = 0

abbrev pub taken : Guest → ℕ
taken g = g.nr_tasks + pending g.phase

abbrev pub cost : GuestEvent → ℕ
cost (forks allocated) = 1
cost ticks = 0
cost moves = 0
cost yields = 0
cost exits = 0

-- copy_process finds a page.
abbrev pub IsAllocated : GuestEvent → Type 0
IsAllocated (forks allocated) = allocated ≡ true
IsAllocated ticks = Unit {0}
IsAllocated moves = Unit {0}
IsAllocated yields = Unit {0}
IsAllocated exits = Unit {0}

-- A step that ends, well, and takes at most `n` places more.
abbrev pub Steps : Option Guest → Guest → ℕ → Type 0
Steps r g n = (g' : Guest) × (r ≡ some g') × IsValid g' × (taken g' ≤ taken g + n)

nr_tasks-call_schedule : (g : Guest) → (call_schedule g).nr_tasks ≡ g.nr_tasks
unfolding call_schedule
nr_tasks-call_schedule g =
    nr_tasks-change_current (change_current g _) _ ∙ nr_tasks-change_current g _

taken-call_schedule : (g : Guest) → taken (call_schedule g) ≤ taken g
unfolding call_schedule
taken-call_schedule g = omega (arith, nr_tasks-call_schedule g)

taken-end_exit : (g : Guest) → taken (end_exit g) ≤ taken g
unfolding end_exit
taken-end_exit g = omega (
  arith,
  nr_tasks-change_current (change_current g (λ t. record t { state = task_zombie }))
      (λ t. record t { preempt_count = t.preempt_count - 1 }),
  nr_tasks-change_current g (λ t. record t { state = task_zombie }),
)

taken-tick_task : (g : Guest) (p : Option GuestTask) → taken (tick_task g p) ≤ taken g
unfolding tick_task call_schedule
taken-tick_task g none = omega arith
taken-tick_task g (some t) = elim (Bool-cases (keeps_running t)) [
  | inl e ↦ rw e (omega arith)
  | inr e ↦ rw e (omega (arith, nr_tasks-call_schedule g))
]

tick_lem : (g : Guest) → IsValid g → Steps (guest_step g ticks) g 0
unfolding guest_step handle_timer_tick
tick_lem g v =
    let count = λ (t : GuestTask). record t { counter = decrement t.counter } in
    let g' = change_current g count in
    (
      _,
      refl,
      handle_timer_tick-IsValid g v,
      omega (
        arith,
        taken-tick_task g' (place g'.task g'.current),
        nr_tasks-change_current g count,
        ap pending (phase-change_current g count),
      ),
    )

-- The kernel's own steps.
advance_lem :
    (g : Guest) (p : Phase)
    → IsValid g
    → g.phase ≡ p
    → taken g ≤ guest_tasks
    → Steps (advance g p) g 0
unfolding advance
advance_lem g outside v o room = (g, refl, v, omega arith)
advance_lem g forking v o room =
    let (g', e, v', n, q) = end_fork-IsValid g v o (omega (arith, ap pending o)) in
    (g', e, v', omega (arith, n, ap pending q, ap pending o))
advance_lem g exiting v o room = (_, refl, end_exit-IsValid g v o, omega (arith, taken-end_exit g))
advance_lem g leaving v o room =
    (_, refl, call_schedule-IsValid g v (ap depth o), omega (arith, taken-call_schedule g))
advance_lem g choosing v o room =
    let (g', e, v', n, q) = switch_task-IsValid g v o in (g', e, v', omega (arith, n, ap pending q))
advance_lem g resuming v o room = (
  record (preempt_enable g) { phase = outside },
  refl,
  change-IsValid g _ outside v (λ t e. omega (arith, e, ap depth o)) (λ t h. h),
  omega (arith, nr_tasks-change_current g (λ t. record t { preempt_count = t.preempt_count - 1 })),
)

outside_of_test : (p : Phase) → is_outside p ≡ true → p ≡ outside
outside_of_test outside e = refl
outside_of_test forking e = cc
outside_of_test exiting e = cc
outside_of_test leaving e = cc
outside_of_test choosing e = cc
outside_of_test resuming e = cc

first-true : (a b : Bool) → (a && b) ≡ true → a ≡ true
first-true true b e = refl
first-true false b e = e

taken-begin_fork : (g : Guest) → taken (begin_fork true g) ≤ taken g + 1
unfolding begin_fork
taken-begin_fork g =
    omega (arith, nr_tasks-change_current g (λ t. record t { preempt_count = t.preempt_count + 1 }))

taken-begin_exit : (g : Guest) → taken (begin_exit g) ≤ taken g
unfolding begin_exit
taken-begin_exit g =
    omega (arith, nr_tasks-change_current g (λ t. record t { preempt_count = t.preempt_count + 1 }))

step_lem :
    (g : Guest) (e : GuestEvent)
    → IsValid g
    → IsAllocated e
    → taken g + cost e ≤ guest_tasks
    → Steps (guest_step g e) g (cost e)
unfolding guest_step
step_lem g ticks v a room = tick_lem g v
step_lem g moves v a room = advance_lem g g.phase v refl (omega (arith, room))
step_lem g yields v a room = elim (Bool-cases (is_outside g.phase)) [
  | inl b ↦ (
    call_schedule g,
    (rw b),
    call_schedule-IsValid g v (ap depth (outside_of_test _ b)),
    omega (arith, taken-call_schedule g),
  )
  | inr b ↦ (g, (rw b), v, omega arith)
]
step_lem g exits v a room = elim (Bool-cases (is_outside g.phase && not (g.current == 0))) [
  | inl b ↦ (
    begin_exit g,
    (rw b),
    begin_exit-IsValid g v (outside_of_test _ (first-true _ _ b)),
    omega (arith, taken-begin_exit g),
  )
  | inr b ↦ (g, (rw b), v, omega arith)
]
step_lem g (forks true) v a room = elim (Bool-cases (is_outside g.phase)) [
  | inl b ↦
      (begin_fork true g, (rw b), begin_fork-IsValid g v (outside_of_test _ b), taken-begin_fork g)
  | inr b ↦ (g, (rw b), v, omega arith)
]
step_lem g (forks false) v a room = cc

abbrev pub AreAllocated : List GuestEvent → Type 0
AreAllocated [] = Unit {0}
AreAllocated (e ∷ es) = IsAllocated e × AreAllocated es

abbrev pub costs : List GuestEvent → ℕ
costs [] = 0
costs (e ∷ es) = cost e + costs es

-- From a valid state, any sequence of ticks, steps of the kernel and calls of the tasks runs to its
-- end and keeps the state valid, as long as copy_process finds its pages and no more tasks are made
-- than `task` has places: each search of _schedule ends, each switch goes to a task, a task that is
-- not current has preemption disabled once, and the current task has it disabled exactly in the
-- critical parts of _schedule, copy_process and exit_process. In a valid state all of this holds
-- already, and a counter is at most twice its task's priority, which is above 0 and below 2^30, so
-- that an `int` holds the counters that are above 0.
pub guest_run-IsValid :
    (es : List GuestEvent) (g : Guest)
    → IsValid g
    → AreAllocated es
    → taken g + costs es ≤ guest_tasks
    → (g' : Guest) × (guest_run g es ≡ some g') × IsValid g'
unfolding guest_run go_on
guest_run-IsValid [] g v a room = (g, refl, v)
guest_run-IsValid (e ∷ es) g v a room =
    let (g₁, q, v₁, more) = step_lem g e v a.0 (omega (arith, room)) in
    let (g₂, r, v₂) = guest_run-IsValid es g₁ v₁ a.1 (omega (arith, room, more)) in
    (g₂, (rw q r), v₂)
