-- ===== src/Lrtos/Ticks.antt =====
-- What a tick does where preemption is disabled.
use avisor.Prelude.{
  ℕ, zero, suc, ◌+◌, ◌<◌, ◌≡◌, ◌∙◌, refl, ap, arith, Bool, true, false, ◌||◌, some, ◌∷◌, lt→ltb,
  ==_refl, replicate, set,
}
use avisor.Prelude.Int.{pos, gtb}
use avisor.Lrtos.Counter.{decrement}
use avisor.Lrtos.{
  GuestTask, Guest, Phase, outside, place, change_current, keeps_running, tick_task,
  handle_timer_tick, preempt_disable, is_outside, begin_fork, ticks, forks, guest_step, go_on,
  guest_run,
}
use avisor.Lrtos.Preempt.{depth, IsValid, place-lt, place-set}

-- The current task has preemption disabled, and the phase is `phase`.
pub record IsHeld (g : Guest) (current : ℕ) (phase : Phase) : Type 0 where
  pub same_current : g.current ≡ current
  pub same_phase : g.phase ≡ phase
  pub held : (t : GuestTask) × (place g.task g.current ≡ some t) × (0 < t.preempt_count)

keeps-held : (t : GuestTask) → 0 < t.preempt_count → keeps_running t ≡ true
keeps-held t h = second (gtb t.counter (pos 0)) _ (lt→ltb 0 t.preempt_count h)
  where
    second : (a b : Bool) → b ≡ true → (a || b) ≡ true
    second true b q = refl
    second false b q = q

-- A tick does not take the processor from it.
tick-IsHeld :
    (g : Guest) (current : ℕ) (phase : Phase)
    → IsHeld g current phase
    → IsHeld (handle_timer_tick g) current phase
unfolding handle_timer_tick tick_task
tick-IsHeld g current phase h =
    let (t, at, count) = h.held in
    let u : GuestTask = record t { counter = decrement t.counter } in
    let at' : place (set g.task g.current (some u)) g.current ≡ some u =
      place-set g.task g.current g.current (some u) (place-lt g.task g.current t at)
      ∙ (rw (==_refl g.current)) in
    rw at (
      rw (at', keeps-held u count)
        (record {
          same_current = h.same_current;
          same_phase = h.same_phase;
          held = (u, at', count);
        }))

-- In a valid state, a tick in a critical part of the kernel only counts the current task's counter
-- down: it does not enter _schedule a second time, which would clear the counter and disable
-- preemption once more, and the tasks, `current` and the phase stay as they are but for that.
pub tick-critical :
    (g : Guest)
    → IsValid g
    → depth g.phase ≡ 1
    → handle_timer_tick g ≡ change_current g (λ t. record t { counter = decrement t.counter })
unfolding handle_timer_tick tick_task
tick-critical g v d =
    let (t, at) = v.at_current in
    let own : t.preempt_count ≡ depth g.phase =
      v.counts g.current t at ∙ (rw (==_refl g.current)) in
    let u : GuestTask = record t { counter = decrement t.counter } in
    let at' : place (set g.task g.current (some u)) g.current ≡ some u =
      place-set g.task g.current g.current (some u) (place-lt g.task g.current t at)
      ∙ (rw (==_refl g.current)) in
    rw at (rw (at', keeps-held u (omega (arith, own, d))) refl)

ticks-IsHeld :
    (n : ℕ) (g : Guest) (current : ℕ) (phase : Phase)
    → IsHeld g current phase
    → (g' : Guest) × (guest_run g (replicate n ticks) ≡ some g') × IsHeld g' current phase
unfolding guest_run go_on guest_step
ticks-IsHeld zero g current phase h = (g, refl, h)
ticks-IsHeld (suc n) g current phase h =
    ticks-IsHeld n (handle_timer_tick g) current phase (tick-IsHeld g current phase h)

-- A task whose copy_process finds no page is back outside of the kernel with preemption disabled:
-- no number of ticks takes the processor from it.
pub forks-held :
    (n : ℕ) (g : Guest)
    → IsValid g
    → g.phase ≡ outside
    → (g' : Guest) × (guest_run g (forks false ∷ replicate n ticks) ≡ some g')
      × (g'.current ≡ g.current)
      × (g'.phase ≡ outside)
unfolding guest_run go_on guest_step begin_fork
forks-held n g v o =
    let (t, at) = v.at_current in
    let u : GuestTask = record t { preempt_count = t.preempt_count + 1 } in
    let at' : place (set g.task g.current (some u)) g.current ≡ some u =
      place-set g.task g.current g.current (some u) (place-lt g.task g.current t at)
      ∙ (rw (==_refl g.current)) in
    let h : IsHeld (preempt_disable g) g.current outside =
      rw at (record { same_current = refl; same_phase = o; held = (u, at', omega arith) }) in
    let (g', e, held) = ticks-IsHeld n (preempt_disable g) g.current outside h in
    (g', (rw (ap is_outside o) e), held.same_current, held.same_phase)
