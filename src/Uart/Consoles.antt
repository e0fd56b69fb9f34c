-- ===== src/Uart/Consoles.antt =====
-- No key takes the keyboard to a console that does not exist.
use mathlib.Core.Path.{subst}
use avisor.Prelude.{
  ◌∷◌, ℕ, ◌-◌, ◌<◌, ◌≤◌, ◌≡◌, ◌≢◌, refl, sym, ap, ◌∙◌, Bool, true, false, Option, none, some, List,
  [], ◌==◌, if◌then◌else◌, leb, set, length, arith, length-set, get_or-set_self, get_or-set_ne,
  ==_iff, Bool-cases, inl, inr,
}
use avisor.Utils.{isdigit}
use avisor.Task.{Task}
use avisor.Sched.{task_at, is_running}
use avisor.Console.{flush_task_console}
use avisor.Console.Flush.{flush_task_console_lem}
use avisor.Bcm2837.Aux.Laws.{HasRings}
use avisor.Shell.{Out, switched}
use avisor.Uart.{
  Host, escape_char, with_task, enqueue_for, enqueue_char, flushed_at, flush_running, announced,
  switch_console, handle_char,
}
use avisor.Uart.Keys.{put, put-HasRings}

-- The keyboard is forwarded to a task, and every task below `nr_tasks` has well-formed rings.
pub record IsHost (h : Host) : Type 0 where
  pub console_in : h.uart_forwarded_task < h.sys.nr_tasks
  pub places : h.sys.nr_tasks ≤ length h.sys.task
  pub tasks :
      (i : ℕ) → i < h.sys.nr_tasks → (tsk : Task) × (task_at h.sys.task i ≡ some tsk) × HasRings tsk

-- A result that is one, with the invariant kept.
pub record Answers (o : Option (Host × List Out)) : Type 0 where
  pub host : Host
  pub out : List Out
  pub ends : o ≡ some (host, out)
  pub kept : IsHost host

answered : (h : Host) (out : List Out) → IsHost h → Answers (some (h, out))
answered h out v = record { host = h; out = out; ends = refl; kept = v }

either :
    (b : Bool) {t e : Option (Host × List Out)}
    → (b ≡ true → Answers t)
    → (b ≡ false → Answers e)
    → Answers (if b then t else e)
either true p q = p refl
either false p q = q refl

ne_of_== : (a b : ℕ) → (a == b) ≡ false → a ≢ b
ne_of_== a b e = ground arith

pub with_task-IsHost :
    (h : Host) (i : ℕ) (tsk : Task)
    → IsHost h
    → i < h.sys.nr_tasks
    → HasRings tsk
    → IsHost (with_task h i tsk)
with_task-IsHost h i tsk v lt rings = record {
  console_in = v.console_in;
  places = omega (arith, v.places, length-set h.sys.task i (some tsk));
  tasks = λ j below. elim (Bool-cases (i == j)) [
    | inl e ↦ (
      tsk,
      ap (λ k. task_at (set h.sys.task i (some tsk)) k) (sym ((==_iff i j).0 e))
          ∙ get_or-set_self h.sys.task i (some tsk) none (omega (arith, v.places)),
      rings,
    )
    | inr e ↦
        let (t, at, ok) = v.tasks j below in
        (t, get_or-set_ne h.sys.task i j (some tsk) none (ne_of_== i j e) ∙ at, ok)
  ];
}

-- A key for the VM.
queued :
    (h : Host) (c : ℕ) (tsk : Task) (b : Bool)
    → IsHost h
    → HasRings tsk
    → IsHost (if b then with_task h h.uart_forwarded_task (put tsk c) else h)
queued h c tsk true v rings =
    with_task-IsHost h h.uart_forwarded_task (put tsk c) v v.console_in (put-HasRings tsk c rings)
queued h c tsk false v rings = v

enqueue_char-IsHost : (h : Host) (c : ℕ) → IsHost h → IsHost (enqueue_char h c)
unfolding enqueue_char enqueue_for
enqueue_char-IsHost h c v =
    let (tsk, at, rings) = v.tasks h.uart_forwarded_task v.console_in in
    subst (λ o. IsHost (enqueue_for h c o)) (sym at) (queued h c tsk (is_running tsk) v rings)

-- The output of a VM that is switched to.
pub flushed :
    (h : Host) (i : ℕ) (tsk : Task)
    → IsHost h
    → i < h.sys.nr_tasks
    → HasRings tsk
    → Answers (flush_running h i (some tsk))
unfolding flush_running flushed_at
flushed h i tsk v lt rings =
    let (after, ends, ok, _, _) = flush_task_console_lem tsk rings in
    either (is_running tsk)
      (λ e.
        subst (λ o. Answers (flushed_at h i o)) (sym ends)
          (answered (with_task h i after) _ (with_task-IsHost h i after v lt ok)))
      (λ e. answered h [] v)

-- A flush does not move the keyboard.
console_of : Option (Host × List Out) → ℕ
console_of none = 0
console_of (some (h, out)) = h.uart_forwarded_task

either_same :
    (b : Bool) (x y : Option (Host × List Out)) (n : ℕ)
    → console_of x ≡ n
    → console_of y ≡ n
    → console_of (if b then x else y) ≡ n
either_same true x y n p q = p
either_same false x y n p q = q

pub flush_running-console :
    (h : Host) (i : ℕ) (tsk : Task)
    → HasRings tsk
    → (a : Answers (flush_running h i (some tsk)))
    → a.host.uart_forwarded_task ≡ h.uart_forwarded_task
unfolding flush_running flushed_at console_of
flush_running-console h i tsk rings a =
    let (after, ends, _, _, _) = flush_task_console_lem tsk rings in
    ap console_of (sym a.ends)
    ∙ either_same (is_running tsk) (flushed_at h i (flush_task_console tsk)) (some (h, []))
        h.uart_forwarded_task (ap (λ o. console_of (flushed_at h i o)) ends) refl

announced-Answers : (m : Out) (o : Option (Host × List Out)) → Answers o → Answers (announced m o)
unfolding announced
announced-Answers m o a =
    subst (λ x. Answers (announced m x)) (sym a.ends) (answered a.host (m ∷ a.out) a.kept)

switch_console-Answers : (h : Host) (i : ℕ) → IsHost h → Answers (switch_console h i)
unfolding switch_console
switch_console-Answers h i v =
    either (leb h.sys.nr_tasks i) (λ e. answered h [] v)
      (λ e.
        let lt : i < h.sys.nr_tasks = below e in
        let (tsk, at, rings) = v.tasks i lt in
        let to : Host = record h { uart_forwarded_task = i } in
        subst (λ o. Answers (announced (switched i) (flush_running to i o))) (sym at)
          (announced-Answers (switched i) (flush_running to i (some tsk)) (
            flushed to i tsk (record { console_in = lt; places = v.places; tasks = v.tasks }) lt
              rings)))
  where
    below : leb h.sys.nr_tasks i ≡ false → i < h.sys.nr_tasks
    below e = ground arith

-- Whatever is typed while a VM has the keyboard, the handler ends, and the keyboard belongs to a
-- task that exists; the rings of all tasks stay well formed.
pub handle_char-Answers : (h : Host) (c : ℕ) → IsHost h → Answers (handle_char h c)
unfolding handle_char
handle_char-Answers h c v =
    let escape : (b : Bool) → IsHost (record h { is_escaped = b }) =
      λ b. record { console_in = v.console_in; places = v.places; tasks = v.tasks } in
    let plain : Host = record h { is_escaped = false } in
    either h.is_escaped
      (λ e.
        either (isdigit c) (λ f. switch_console-Answers plain (c - 0x30) (escape false))
          (λ f.
            either (c == 0x6c) (λ g. answered plain [] (escape false))
              (λ g.
                either (c == escape_char)
                  (λ k. answered _ [] (enqueue_char-IsHost plain c (escape false)))
                  (λ k. answered plain [] (escape false)))))
      (λ e.
        either (c == escape_char) (λ f. answered _ [] (escape true))
          (λ f. answered _ [] (enqueue_char-IsHost h c v)))
