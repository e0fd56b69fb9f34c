-- ===== src/Lrtos/Tests.antt =====
-- lrtos as it starts, and two tasks.
use avisor.Prelude.{
  ℕ, zero, suc, ◌≤◌, ◌≡◌, refl, arith, none, some, List, [], ◌∷◌, get_or-replicate, sym, ◌∙◌, ap,
  replicate, true, false,
}
use avisor.Prelude.Int.{pos}
use avisor.Lrtos.{
  GuestTask, Guest, Phase, outside, choosing, place, task_running, GuestEvent, ticks, moves, yields,
  forks, guest_run, handle_timer_tick, change_current,
}
use avisor.Lrtos.Counter.{decrement}
use avisor.Lrtos.Rounds.{IsTimed}
use avisor.Lrtos.Preempt.{depth, IsValid, count_at}
use avisor.Lrtos.Run.{guest_run-IsValid}
use avisor.Lrtos.Ticks.{tick-critical, forks-held}

-- INIT_TASK, with a preemption count.
abbrev init_task : ℕ → GuestTask
init_task count = record {
  state = task_running;
  counter = pos 0;
  priority = 5;
  preempt_count = count;
}

abbrev boot : Phase → Guest
boot phase = record {
  task = some (init_task (depth phase)) ∷ replicate 63 none;
  current = 0;
  nr_tasks = 1;
  phase = phase;
}

free : (i : ℕ) (t : GuestTask) → place (replicate 63 none) i ≡ some t → ⊥
free i t e = clash (sym (get_or-replicate 63 none i) ∙ e)
  where
    clash : none ≡ some t → ⊥
    clash q = cc

inject : (x y : GuestTask) → some x ≡ some y → x ≡ y
inject x y q = cc

boot-counts :
    (phase : Phase) (j : ℕ) (t : GuestTask)
    → place (boot phase).task j ≡ some t
    → (t.preempt_count ≡ count_at 0 phase j) × IsTimed t
boot-counts phase zero t e =
    let q = inject _ _ e in
    (
      sym (ap (λ (x : GuestTask). x.preempt_count) q),
      rw (← q) (omega arith, omega arith, omega arith),
    )
boot-counts phase (suc j) t e = absurd (free j t e)

boot-free : (phase : Phase) (j : ℕ) → 1 ≤ j → place (boot phase).task j ≡ none
boot-free phase zero h = absurd (omega arith)
boot-free phase (suc j) h = get_or-replicate 63 none j

boot-IsValid : (phase : Phase) → IsValid (boot phase)
boot-IsValid phase = record {
  counts = λ j t e. (boot-counts phase j t e).0;
  timed = λ j t e. (boot-counts phase j t e).1;
  at_current = (init_task (depth phase), refl);
  at_first = (init_task (depth phase), refl);
  beyond = boot-free phase;
  size = refl;
}

-- A fork, ticks while it runs, and a switch.
abbrev events : List GuestEvent
events = forks true ∷ ticks ∷ moves ∷ ticks ∷ moves ∷ moves ∷ yields ∷ moves ∷ moves ∷ []

guest_run-IsValid_example : (g : Guest) × (guest_run (boot outside) events ≡ some g) × IsValid g
guest_run-IsValid_example =
    guest_run-IsValid events (boot outside) (boot-IsValid outside)
      (refl, (tt, (tt, (tt, (tt, (tt, (tt, (tt, (tt, tt))))))))) (omega arith)

tick-critical_example :
    handle_timer_tick (boot choosing)
    ≡ change_current (boot choosing) (λ t. record t { counter = decrement t.counter })
tick-critical_example = tick-critical (boot choosing) (boot-IsValid choosing) refl

forks-held_example :
    (g : Guest) × (guest_run (boot outside) (forks false ∷ replicate 9 ticks) ≡ some g)
    × (g.current ≡ 0)
    × (g.phase ≡ outside)
forks-held_example = forks-held 9 (boot outside) (boot-IsValid outside) refl
