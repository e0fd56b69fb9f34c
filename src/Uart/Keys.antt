-- ===== src/Uart/Keys.antt =====
-- Typing for a VM.
use mathlib.Core.Path.{subst}
use avisor.Prelude.{
  ℕ, ◌<◌, ◌≡◌, ◌≢◌, refl, sym, ap, ◌∙◌, Bool, true, false, Option, none, some, List, [], ◌∷◌, ◌++◌,
  ◌==◌, if◌then◌else◌, length, arith, length-set, get_or-set_self, get_or-set_ne, ==_iff,
  Bool-cases, inl, inr,
}
use avisor.Task.{Task}
use avisor.Fifo.{Fifo, enqueue_fifo}
use avisor.Fifo.Inv.{enqueue_fifo-IsValid}
use avisor.Fifo.Queue
use avisor.Fifo.Refine.{contents, enqueue_fifo_refines}
use avisor.Sched.{task_at, is_running}
use avisor.Bcm2837.Aux.{with_in}
use avisor.Bcm2837.Aux.Laws.{HasRings}
use avisor.Shell.{Out}
use avisor.Uart.{Host, escape_char, with_task, enqueue_for, enqueue_char, handle_char}

-- The characters of a list, one interrupt each.
pub run_keys : Host → List ℕ → Option (Host × List Out)
run_keys h [] = some (h, [])
run_keys h (c ∷ s) = elim (handle_char h c) [
  | none ↦ none
  | some (h', out) ↦ elim (run_keys h' s) [
    | none ↦ none
    | some (h'', out') ↦ some (h'', out ++ out')
  ]
]

-- What one types for a text: every '@' twice.
abbrev pub typed : List ℕ → List ℕ
typed [] = []
typed (c ∷ s) = if c == escape_char then escape_char ∷ escape_char ∷ typed s else c ∷ typed s

-- A queue after a text, of which what does not fit is dropped.
pub received : List ℕ → List ℕ → List ℕ
received q [] = q
received q (c ∷ s) = received (Queue.enqueue q c).1 s

-- The keyboard is forwarded to this task.
pub record IsForwarded (h : Host) (tsk : Task) : Type 0 where
  pub place : h.uart_forwarded_task < length h.sys.task
  pub at : task_at h.sys.task h.uart_forwarded_task ≡ some tsk
  pub running : is_running tsk ≡ true
  pub rings : HasRings tsk

-- What typing leaves: the text in the input queue of the VM, and all else of the VM, every other
-- task, `current`, memory and the arguments of the loader as they were.
pub record IsDelivered (h : Host) (tsk : Task) (text : List ℕ) (h' : Host) : Type 0 where
  pub tsk' : Task
  pub in_fifo : Fifo
  pub same_vm : tsk' ≡ with_in tsk in_fifo
  pub same_current : h'.sys.current ≡ h.sys.current
  pub same_nr_tasks : h'.sys.nr_tasks ≡ h.sys.nr_tasks
  pub same_machine : h'.machine ≡ h.machine
  pub same_args : h'.bl_args ≡ h.bl_args
  pub plain : h'.is_escaped ≡ false
  pub same_console : h'.uart_forwarded_task ≡ h.uart_forwarded_task
  pub forwarded : IsForwarded h' tsk'
  pub queue : contents tsk'.console.in_fifo ≡ received (contents tsk.console.in_fifo) text
  pub others : (i : ℕ) → i ≢ h.uart_forwarded_task → task_at h'.sys.task i ≡ task_at h.sys.task i

-- One character.
abbrev pub put : Task → ℕ → Task
put tsk c = with_in tsk (enqueue_fifo tsk.console.in_fifo c).1

pub put-HasRings : (tsk : Task) (c : ℕ) → HasRings tsk → HasRings (put tsk c)
put-HasRings tsk c v = record { in_ring = enqueue_fifo-IsValid c v.in_ring; out_ring = v.out_ring }

with_task-IsForwarded :
    (h : Host) (tsk tsk' : Task)
    → IsForwarded h tsk
    → is_running tsk' ≡ true
    → HasRings tsk'
    → IsForwarded (with_task h h.uart_forwarded_task tsk') tsk'
with_task-IsForwarded h tsk tsk' v running rings = record {
  place = omega (arith, v.place, length-set h.sys.task h.uart_forwarded_task (some tsk'));
  at = get_or-set_self h.sys.task h.uart_forwarded_task (some tsk') none v.place;
  running = running;
  rings = rings;
}

enqueue_char_lem :
    (h : Host) (tsk : Task) (c : ℕ)
    → IsForwarded h tsk
    → enqueue_char h c ≡ with_task h h.uart_forwarded_task (put tsk c)
unfolding enqueue_char enqueue_for
enqueue_char_lem h tsk c v = ap (enqueue_for h c) v.at ∙ runs (is_running tsk) v.running
  where
    runs :
        (b : Bool)
        → b ≡ true
        → (if b then with_task h h.uart_forwarded_task (put tsk c) else h)
          ≡ with_task h h.uart_forwarded_task (put tsk c)
    runs b e = rw e refl

one_char :
    (h : Host) (tsk : Task) (c : ℕ)
    → h.is_escaped ≡ false
    → IsForwarded h tsk
    → IsDelivered h tsk (c ∷ []) (enqueue_char h c)
unfolding received
one_char h tsk c plain v =
    subst (IsDelivered h tsk (c ∷ [])) (sym (enqueue_char_lem h tsk c v)) (record {
      tsk' = put tsk c;
      in_fifo = (enqueue_fifo tsk.console.in_fifo c).1;
      same_vm = refl;
      same_current = refl;
      same_nr_tasks = refl;
      same_machine = refl;
      same_args = refl;
      plain = plain;
      same_console = refl;
      forwarded = with_task-IsForwarded h tsk (put tsk c) v v.running (put-HasRings tsk c v.rings);
      queue = ap (λ r. r.1) (enqueue_fifo_refines c v.rings.in_ring);
      others = λ i ne.
          get_or-set_ne h.sys.task h.uart_forwarded_task i (some (put tsk c)) none
            (λ e. ne (sym e));
    })

-- The rest of a text after its first character.
then_text :
    {h h₁ h₂ : Host} {tsk : Task} (c : ℕ) (s : List ℕ) (first : IsDelivered h tsk (c ∷ []) h₁)
    → IsDelivered h₁ first.tsk' s h₂
    → IsDelivered h tsk (c ∷ s) h₂
unfolding received
then_text c s first rest = record {
  tsk' = rest.tsk';
  in_fifo = rest.in_fifo;
  same_vm = rest.same_vm ∙ ap (λ t. with_in t rest.in_fifo) first.same_vm;
  same_current = rest.same_current ∙ first.same_current;
  same_nr_tasks = rest.same_nr_tasks ∙ first.same_nr_tasks;
  same_machine = rest.same_machine ∙ first.same_machine;
  same_args = rest.same_args ∙ first.same_args;
  plain = rest.plain;
  same_console = rest.same_console ∙ first.same_console;
  forwarded = rest.forwarded;
  queue = rest.queue ∙ ap (λ q. received q s) first.queue;
  others = λ i ne. rest.others i (λ e. ne (e ∙ first.same_console)) ∙ first.others i ne;
}

-- One round of `run_keys` that prints nothing.
silent :
    (h h' h'' : Host) (c : ℕ) (s : List ℕ)
    → handle_char h c ≡ some (h', [])
    → run_keys h' s ≡ some (h'', [])
    → run_keys h (c ∷ s) ≡ some (h'', [])
unfolding run_keys
silent h h' h'' c s e k = rw (run_keys, e, k) refl

plain_char :
    (h : Host) (c : ℕ)
    → h.is_escaped ≡ false
    → (c == escape_char) ≡ false
    → handle_char h c ≡ some (enqueue_char h c, [])
unfolding handle_char
plain_char h c plain ne = rw (plain, ne) refl

-- The first '@' and the second one.
escape :
    (h : Host)
    → h.is_escaped ≡ false
    → handle_char h escape_char ≡ some (record h { is_escaped = true }, [])
unfolding handle_char
escape h plain = rw plain refl

escaped :
    (h : Host)
    → handle_char (record h { is_escaped = true }) escape_char
      ≡ some (enqueue_char (record h { is_escaped = false }) escape_char, [])
unfolding handle_char
escaped h = refl

unescaped :
    {h : Host} {tsk : Task} → IsForwarded h tsk → IsForwarded (record h { is_escaped = false }) tsk
unescaped v = record { place = v.place; at = v.at; running = v.running; rings = v.rings }

from_unescaped :
    {h h' : Host} {tsk : Task} {s : List ℕ}
    → IsDelivered (record h { is_escaped = false }) tsk s h'
    → IsDelivered h tsk s h'
from_unescaped d = record {
  tsk' = d.tsk';
  in_fifo = d.in_fifo;
  same_vm = d.same_vm;
  same_current = d.same_current;
  same_nr_tasks = d.same_nr_tasks;
  same_machine = d.same_machine;
  same_args = d.same_args;
  plain = d.plain;
  same_console = d.same_console;
  forwarded = d.forwarded;
  queue = d.queue;
  others = d.others;
}

-- Typing a text for a running VM, with every '@' twice, puts exactly this text in the input queue
-- of its console, or what fits of it; nothing is printed, the keyboard stays with the VM, and
-- nothing else changes: not the rest of the VM, no other task, no memory and not who runs.
pub typed-IsDelivered :
    (h : Host) (tsk : Task) (s : List ℕ)
    → h.is_escaped ≡ false
    → IsForwarded h tsk
    → (h' : Host) × (run_keys h (typed s) ≡ some (h', [])) × IsDelivered h tsk s h'
unfolding received run_keys
typed-IsDelivered h tsk [] plain v = (
  h,
  refl,
  record {
    tsk' = tsk;
    in_fifo = tsk.console.in_fifo;
    same_vm = refl;
    same_current = refl;
    same_nr_tasks = refl;
    same_machine = refl;
    same_args = refl;
    plain = plain;
    same_console = refl;
    forwarded = v;
    queue = refl;
    others = λ i ne. refl;
  },
)
typed-IsDelivered h tsk (c ∷ s) plain v = elim (Bool-cases (c == escape_char)) [
  | inr ne ↦
      let first = one_char h tsk c plain v in
      let (h', run, rest) =
        typed-IsDelivered (enqueue_char h c) first.tsk' s first.plain first.forwarded in
      (
        h',
        rw ne (silent h _ h' c (typed s) (plain_char h c plain ne) run),
        then_text c s first rest,
      )
  | inl at ↦
      let h₀ : Host = record h { is_escaped = false } in
      let first = one_char h₀ tsk escape_char refl (unescaped v) in
      let (h', run, rest) =
        typed-IsDelivered (enqueue_char h₀ escape_char) first.tsk' s first.plain first.forwarded in
      (
        h',
        rw at (
            silent h _ h' escape_char (escape_char ∷ typed s) (escape h plain)
              (silent (record h { is_escaped = true }) _ h' escape_char (typed s) (escaped h) run)),
        from_unescaped (
            subst (λ x. IsDelivered h₀ tsk (x ∷ s) h') (sym ((==_iff c escape_char).0 at))
              (then_text escape_char s first rest)),
      )
]
