-- ===== src/Lrtos/Switching.antt =====
-- The switch of _schedule keeps the preemption counts in order.
use avisor.Prelude.{
  ℕ, zero, suc, ◌≡◌, ◌⊎◌, inl, inr, refl, sym, ◌∙◌, ap, Option, none, some, List, [], ◌∷◌, ◌==◌,
  Bool-cases, length, Option-cases,
}
use avisor.Lrtos.{
  GuestTask, Guest, choosing, resuming, place, recharge_place, recharge_tasks, choose_next,
  switch_task,
}
use avisor.Lrtos.Rounds.{
  HavePriority, IsTimed, recharged-IsTimed, Recharged, same, again, choose_next-two,
}
use avisor.Lrtos.Preempt.{depth, count_at, IsValid}

-- The choice of the next task.
place-recharged :
    (ps : List (Option GuestTask)) (j : ℕ)
    → place (recharge_tasks ps) j ≡ recharge_place (place ps j)
unfolding recharge_tasks
place-recharged [] j = refl
place-recharged (p ∷ ps) zero = refl
place-recharged (p ∷ ps) (suc j) = place-recharged ps j

length-recharged : (ps : List (Option GuestTask)) → length (recharge_tasks ps) ≡ length ps
unfolding recharge_tasks
length-recharged [] = refl
length-recharged (p ∷ ps) = ap suc (length-recharged ps)

HavePriority-places :
    (ps : List (Option GuestTask))
    → ((j : ℕ) (t : GuestTask) → place ps j ≡ some t → IsTimed t)
    → HavePriority ps
HavePriority-places [] h = tt
HavePriority-places (none ∷ ps) h = (tt, HavePriority-places ps (λ j. h (suc j)))
HavePriority-places (some t ∷ ps) h = (h 0 t refl, HavePriority-places ps (λ j. h (suc j)))

inject : (x y : GuestTask) → some x ≡ some y → x ≡ y
inject x y q = cc

nothing : (x : GuestTask) → none ≡ some x → ⊥
nothing x q = cc

-- A task, recharged or not, was there before with the same count, and keeps its times.
before :
    {ps qs : List (Option GuestTask)} (j : ℕ) (t : GuestTask)
    → Recharged ps qs
    → place qs j ≡ some t
    → (u : GuestTask) × (place ps j ≡ some u)
      × (t.preempt_count ≡ u.preempt_count)
      × (IsTimed u → IsTimed t)
before j t same e = (t, e, refl, λ h. h)
before {ps} j t again e = elim (Option-cases (place ps j)) [
  | inl q ↦ absurd (nothing t (sym (place-recharged ps j ∙ (rw q)) ∙ e))
  | inr (u, q) ↦
      let same_task = inject t _ (sym e ∙ place-recharged ps j ∙ ap recharge_place q) in
      (
        u,
        q,
        ap (λ (x : GuestTask). x.preempt_count) same_task,
        λ h. rw same_task (recharged-IsTimed u h),
      )
]

-- And it is still there.
after :
    {ps qs : List (Option GuestTask)} (j : ℕ) (u : GuestTask)
    → Recharged ps qs
    → place ps j ≡ some u
    → (t : GuestTask) × (place qs j ≡ some t)
after j u same e = (u, e)
after {ps} j u again e = (_, place-recharged ps j ∙ ap recharge_place e)

after-none :
    {ps qs : List (Option GuestTask)} (j : ℕ)
    → Recharged ps qs
    → place ps j ≡ none
    → place qs j ≡ none
after-none j same e = e
after-none {ps} j again e = place-recharged ps j ∙ ap recharge_place e

after-length : {ps qs : List (Option GuestTask)} → Recharged ps qs → length qs ≡ length ps
after-length same = refl
after-length {ps} again = length-recharged ps

-- In `choosing` the count of each task is 1, so any of them can be the next.
choosing-one :
    (g : Guest) (j : ℕ) (t : GuestTask)
    → IsValid g
    → g.phase ≡ choosing
    → place g.task j ≡ some t
    → t.preempt_count ≡ 1
choosing-one g j t v o at = v.counts j t at ∙ one
  where
    one : count_at g.current g.phase j ≡ 1
    one = elim (Bool-cases (j == g.current)) [ inl b ↦ rw b (ap depth o) | inr b ↦ rw b ]

resuming-one : (next j : ℕ) → count_at next resuming j ≡ 1
resuming-one next j = elim (Bool-cases (j == next)) [ inl b ↦ rw b | inr b ↦ rw b ]

switched-IsValid :
    (g : Guest) (next : ℕ) (qs : List (Option GuestTask))
    → IsValid g
    → g.phase ≡ choosing
    → Recharged g.task qs
    → ((next ≡ 0) ⊎ ((t : GuestTask) × (place qs next ≡ some t)))
    → IsValid (record g { task = qs; current = next; phase = resuming })
switched-IsValid g next qs v o r here =
    let (t₀, at₀) = after 0 v.at_first.0 r v.at_first.1 in
    record {
      counts = λ j t e.
          let (u, at, count, _) = before j t r e in
          count ∙ choosing-one g j u v o at ∙ sym (resuming-one next j);
      timed = λ j t e. let (u, at, _, times) = before j t r e in times (v.timed j u at);
      at_current = elim here [ inl z ↦ (t₀, ap (place qs) z ∙ at₀) | inr held ↦ held ];
      at_first = (t₀, at₀);
      beyond = λ j le. after-none j r (v.beyond j le);
      size = after-length r ∙ v.size;
    }

pub switch_task-IsValid :
    (g : Guest)
    → IsValid g
    → g.phase ≡ choosing
    → (g' : Guest) × (switch_task g (choose_next 2 g.task) ≡ some g')
      × IsValid g'
      × (g'.nr_tasks ≡ g.nr_tasks)
      × (g'.phase ≡ resuming)
unfolding switch_task
switch_task-IsValid g v o =
    let (next, qs, e, r, here) = choose_next-two g.task (HavePriority-places g.task v.timed) in
    (_, rw e, switched-IsValid g next qs v o r here, refl, refl)
