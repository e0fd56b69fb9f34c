-- ===== src/Lrtos/Preempt.antt =====
-- The preemption counts of lrtos: only the current task can have preemption enabled, and has it
-- exactly outside of the kernel's critical parts.
use avisor.Prelude.{
  ℕ, zero, suc, ◌<◌, ◌≤◌, ◌≡◌, ◌≢◌, ◌⊎◌, inl, inr, sym, ◌∙◌, ap, arith, Bool, true, false, Option,
  none, some, List, [], ◌∷◌, ◌==◌, if◌then◌else◌, Bool-cases, length, set, ==_iff, ==_refl,
  length-set, get_or-set_self, get_or-set_ne, Option-cases,
}
use avisor.Lrtos.Rounds.{IsTimed}
use avisor.Lrtos.{
  GuestTask, Guest, Phase, outside, forking, exiting, leaving, choosing, resuming, place,
  change_current, guest_tasks,
}

-- The preemption count of the current task.
abbrev pub depth : Phase → ℕ
depth outside = 0
depth forking = 1
depth exiting = 1
depth leaving = 0
depth choosing = 1
depth resuming = 1

-- The count of the task at place `j`.
abbrev pub count_at : (current : ℕ) → Phase → (j : ℕ) → ℕ
count_at current phase j = if j == current then depth phase else 1

pub record IsValid (g : Guest) : Type 0 where
  pub counts :
      (j : ℕ) (t : GuestTask)
      → place g.task j ≡ some t
      → t.preempt_count ≡ count_at g.current g.phase j
  pub timed : (j : ℕ) (t : GuestTask) → place g.task j ≡ some t → IsTimed t
  pub at_current : (t : GuestTask) × (place g.task g.current ≡ some t)
  pub at_first : (t : GuestTask) × (place g.task 0 ≡ some t)
  pub beyond : (j : ℕ) → g.nr_tasks ≤ j → place g.task j ≡ none
  pub size : length g.task ≡ guest_tasks

pub place-lt :
    (ps : List (Option GuestTask)) (i : ℕ) (t : GuestTask) → place ps i ≡ some t → i < length ps
place-lt [] i t e = cc
place-lt (p ∷ ps) zero t e = omega arith
place-lt (p ∷ ps) (suc i) t e = omega (arith, place-lt ps i t e)

pub true-ne-false : ◌≢◌ {A = Bool} true false
true-ne-false e = cc

pub place-set :
    (ps : List (Option GuestTask)) (i j : ℕ) (u : Option GuestTask)
    → i < length ps
    → place (set ps i u) j ≡ (if j == i then u else place ps j)
place-set ps i j u h = elim (Bool-cases (j == i)) [
  | inl e ↦ rw e (rw ((==_iff j i).0 e) (get_or-set_self ps i u none h))
  | inr e ↦
      rw e (
        get_or-set_ne ps i j u none
          (λ q. absurd (true-ne-false (sym ((==_iff j i).1 (sym q)) ∙ e))))
]

-- What stands at a place after a write.
pub set-cases :
    (ps : List (Option GuestTask)) (i j : ℕ) (u t : GuestTask)
    → i < length ps
    → place (set ps i (some u)) j ≡ some t
    → (((j == i) ≡ true) × (u ≡ t)) ⊎ (((j == i) ≡ false) × (place ps j ≡ some t))
set-cases ps i j u t h e = elim (Bool-cases (j == i)) [
  | inl b ↦ inl (b, first (sym (place-set ps i j (some u) h ∙ (rw b)) ∙ e))
  | inr b ↦ inr (b, sym (place-set ps i j (some u) h ∙ (rw b)) ∙ e)
]
  where
    first : {x y : GuestTask} → some x ≡ some y → x ≡ y
    first q = cc

-- A change of the current task that keeps its times, with a new phase of its new count.
pub update-IsValid :
    (g : Guest) (t u : GuestTask) (phase : Phase)
    → IsValid g
    → place g.task g.current ≡ some t
    → u.preempt_count ≡ depth phase
    → (IsTimed t → IsTimed u)
    → IsValid (record g { task = set g.task g.current (some u); phase = phase })
update-IsValid g t u phase v at count times =
    let i = g.current in
    let inside = place-lt g.task i t at in
    let look = λ (j : ℕ). place-set g.task i j (some u) inside in
    record {
      counts = λ j t' e. elim (set-cases g.task i j u t' inside e) [
        | inl (b, q) ↦ ap (λ (x : GuestTask). x.preempt_count) (sym q) ∙ count ∙ (rw b)
        | inr (b, h) ↦ v.counts j t' h ∙ (rw b)
      ];
      timed = λ j t' e. elim (set-cases g.task i j u t' inside e) [
        | inl (b, q) ↦ rw (← q) (times (v.timed i t at))
        | inr (b, h) ↦ v.timed j t' h
      ];
      at_current = (u, look i ∙ (rw (==_refl i)));
      at_first = elim (Bool-cases (0 == i)) [
        | inl b ↦ (u, look 0 ∙ (rw b))
        | inr b ↦ (v.at_first.0, look 0 ∙ (rw b (v.at_first.1)))
      ];
      beyond = λ j le. elim (Bool-cases (j == i)) [
        | inl b ↦
            absurd
              (some_ne_none t (sym at ∙ ap (place g.task) (sym ((==_iff j i).0 b)) ∙ v.beyond j le))
        | inr b ↦ look j ∙ (rw b (v.beyond j le))
      ];
      size = length-set g.task i (some u) ∙ v.size;
    }
  where
    some_ne_none : (x : GuestTask) → some x ≡ none → ⊥
    some_ne_none x q = cc

-- A change of the current task, and of the phase.
pub change-IsValid :
    (g : Guest) (f : GuestTask → GuestTask) (phase : Phase)
    → IsValid g
    → ((t : GuestTask) → t.preempt_count ≡ depth g.phase → (f t).preempt_count ≡ depth phase)
    → ((t : GuestTask) → IsTimed t → IsTimed (f t))
    → IsValid (record (change_current g f) { phase = phase })
change-IsValid g f phase v count times =
    let (t, at) = v.at_current in
    rw at (
      update-IsValid g t (f t) phase v at
        (count t (v.counts g.current t at ∙ (rw (==_refl g.current)))) (times t))

pub nr_tasks-change_current :
    (g : Guest) (f : GuestTask → GuestTask) → (change_current g f).nr_tasks ≡ g.nr_tasks
nr_tasks-change_current g f = elim (Option-cases (place g.task g.current)) [
  | inl e ↦ rw e
  | inr (t, e) ↦ rw e
]

pub phase-change_current :
    (g : Guest) (f : GuestTask → GuestTask) → (change_current g f).phase ≡ g.phase
phase-change_current g f = elim (Option-cases (place g.task g.current)) [
  | inl e ↦ rw e
  | inr (t, e) ↦ rw e
]

-- A change of the current task that keeps its count.
pub change-IsValid_same :
    (g : Guest) (f : GuestTask → GuestTask)
    → IsValid g
    → ((t : GuestTask) → (f t).preempt_count ≡ t.preempt_count)
    → ((t : GuestTask) → IsTimed t → IsTimed (f t))
    → IsValid (change_current g f)
change-IsValid_same g f v count times =
    let (t, at) = v.at_current in
    rw at (
      update-IsValid g t (f t) g.phase v at
        (count t ∙ v.counts g.current t at ∙ (rw (==_refl g.current))) (times t))
