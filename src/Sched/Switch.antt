-- ===== src/Sched/Switch.antt =====
-- Who gets the processor when a task ends or waits.
use mathlib.Core.Path.{subst}
use avisor.Prelude.{
  ℕ, ◌<◌, ◌≡◌, ◌⊎◌, inl, inr, ◌≢◌, refl, ap, sym, ◌∙◌, arith, false, Option, none, some, List,
  ==_refl, ==_of_ne,
}
use avisor.Task.{Task, running, zombie}
use avisor.Sched.{
  System, task_at, is_running, recharge_task, recharge, choose, rounds_enough, schedule_next,
  update_task, schedule, exit_task,
}
use avisor.Sched.Select.{beats, NoneBetter}
use avisor.Sched.Choice.{Choice, idle, best, choose-Choice, task_at-recharge}
use avisor.Sched.Bounds.{
  IsValid, IsValid-priority, IsValid-int, switch_to_lem, update_task-IsValid, task_at-update,
  stopped,
}

-- `s'` runs another task than the one at place `i`.
pub record Switched (i : ℕ) (s' : System) : Type 0 where
  pub moved : s'.current ≢ i
  pub next : Task
  pub holds : task_at s'.task s'.current ≡ some next
  pub runs : next.state ≡ running

-- The task at place `i` cannot be chosen while task `u` runs: it has ended, or it has no time
-- left and `u` has some.
abbrev CannotRun : System → ℕ → Task → Type 0
CannotRun s i u =
    (beats (task_at s.task i) none ≡ false)
    ⊎ ((beats (task_at s.task i) (some 0) ≡ false) × (0 < u.counter))

not_chosen :
    (s : System) (j : ℕ) (u : Task) (qs : List (Option Task)) (t : Task)
    → task_at s.task j ≡ some u
    → u.state ≡ running
    → CannotRun s s.current u
    → (qs ≡ s.task) ⊎ ((qs ≡ recharge s.task) × NoneBetter s.task (some 0))
    → task_at qs s.current ≡ some t
    → t.state ≡ running
    → 0 < t.counter
    → ⊥
not_chosen s j u qs t at_j runs cannot (inl e) holds t_runs left =
    let here : task_at s.task s.current ≡ some t = ap (λ q. task_at q s.current) (sym e) ∙ holds in
    ground (arith, here)
not_chosen s j u qs t at_j runs (inl ended) (inr (e, n)) holds t_runs left =
    recharged (task_at s.task s.current) ended
      (sym (task_at-recharge s.task s.current) ∙ ap (λ q. task_at q s.current) (sym e) ∙ holds)
  where
    recharged : (p : Option Task) → beats p none ≡ false → recharge_task p ≡ some t → ⊥
    recharged none h k = cc k
    recharged (some w) h k =
        let same : w.state ≡ t.state = ap (λ o. elim o [ none ↦ running | some x ↦ x.state ]) k in
        ground (arith, same)
not_chosen s j u qs t at_j runs (inr (spent, has)) (inr (e, n)) holds t_runs left =
    ground (arith, n j)

schedule_next-Switched :
    (s : System) (j : ℕ) (u : Task)
    → IsValid s
    → task_at s.task j ≡ some u
    → u.state ≡ running
    → CannotRun s s.current u
    → (s' : System) × (schedule_next s ≡ some s') × Switched s.current s'
unfolding schedule_next
schedule_next-Switched s j u v at_j runs cannot =
    go (choose-Choice s.task (IsValid-priority v) (IsValid-int v))
  where
    go :
        Choice s.task (choose rounds_enough s.task)
        → (s' : System) × (schedule_next s ≡ some s') × Switched s.current s'
    go (idle e n) = absurd (ground (arith, n j))
    go (best next qs t e from b left) = (
      record s { task = qs; current = next },
      rw (e, schedule_next) (ap some (switch_to_lem (record s { task = qs }) next)),
      record {
        moved = λ same.
            not_chosen s j u qs t at_j runs cannot from
              (subst (λ i. task_at qs i ≡ some t) same b.holds) b.runs left;
        next = t;
        holds = b.holds;
        runs = b.runs;
      },
    )

current-update : (s : System) (i : ℕ) (f : Task → Task) → (update_task s i f).current ≡ s.current
unfolding update_task
current-update s i f = ground arith

module _ (s : System) (f : Task → Task) (t : Task)
    (at_current : task_at s.task s.current ≡ some t) where
  updated_here :
      task_at (update_task s s.current f).task (update_task s s.current f).current ≡ some (f t)
  updated_here =
      ap (task_at (update_task s s.current f).task) (current-update s s.current f)
      ∙ task_at-update s s.current s.current f t at_current
      ∙ rw (==_refl s.current)

  updated_elsewhere :
      (j : ℕ) → j ≢ s.current → task_at (update_task s s.current f).task j ≡ task_at s.task j
  updated_elsewhere j other =
      task_at-update s s.current j f t at_current ∙ rw (==_of_ne s.current j (λ e. other (sym e)))

-- `schedule` with a current task that has ended, or with another running task that has time left.
schedule_away :
    (s : System) (j : ℕ) (t u : Task)
    → IsValid s
    → task_at s.task s.current ≡ some t
    → task_at s.task j ≡ some u
    → u.state ≡ running
    → j ≢ s.current
    → (is_running t ≡ false) ⊎ (0 < u.counter)
    → (s' : System) × (schedule s ≡ some s') × Switched s.current s'
unfolding schedule
schedule_away s j t u v at_current at_j runs other why =
    let here = updated_here s (λ t. record t { counter = 0 }) t at_current in
    let (s', e, w) =
      schedule_next-Switched (stopped s) j u (update_task-IsValid s _ (λ t h. ground arith) v)
        (updated_elsewhere s _ t at_current j other ∙ at_j) runs
        (elim why [
          | inl ended ↦ inl (ap (λ p. beats p none) here ∙ ground arith)
          | inr left ↦ inr (ap (λ p. beats p (some 0)) here ∙ ground arith, left)
        ]) in
    (s', e, subst (λ i. Switched i s') (current-update s s.current _) w)

-- When the current task waits while another running task has time left, `schedule` passes the
-- processor to a running task other than it.
schedule-Switched :
    (s : System) (j : ℕ) (t u : Task)
    → IsValid s
    → task_at s.task s.current ≡ some t
    → task_at s.task j ≡ some u
    → u.state ≡ running
    → j ≢ s.current
    → 0 < u.counter
    → (s' : System) × (schedule s ≡ some s') × Switched s.current s'
schedule-Switched s j t u v at_current at_j runs other left =
    schedule_away s j t u v at_current at_j runs other (inr left)

-- When the current task ends while another one runs, `exit_task` passes the processor to a running
-- task other than it.
pub exit_task-Switched :
    (s : System) (j : ℕ) (t u : Task)
    → IsValid s
    → task_at s.task s.current ≡ some t
    → task_at s.task j ≡ some u
    → u.state ≡ running
    → j ≢ s.current
    → (s' : System) × (exit_task s ≡ some s') × Switched s.current s'
unfolding exit_task
exit_task-Switched s j t u v at_current at_j runs other =
    let end = λ (t : Task). record t { state = zombie } in
    let stays = current-update s s.current end in
    let (s', e, w) =
      schedule_away (update_task s s.current end) j (end t) u
        (update_task-IsValid s end (λ t h. h) v) (updated_here s end t at_current)
        (updated_elsewhere s end t at_current j other ∙ at_j) runs (λ e. other (e ∙ stays))
        (inl refl) in
    (s', e, subst (λ i. Switched i s') stays w)
