-- ===== src/Command/Laws.antt =====
-- What `vmc` does with the keyboard.
use mathlib.Core.List.{map}
use avisor.Prelude.{
  ℕ, ◌%◌, ◌<◌, ◌≤◌, ◌≡◌, ◌⊎◌, refl, ap, ◌∙◌, true, false, Option, some, List, [], ◌∷◌, ◌==◌, leb,
  arith, ==_iff, Bool-cases, inl, inr,
}
use avisor.Task.{Task}
use avisor.Fifo.Refine.{contents}
use avisor.Sched.{task_at}
use avisor.Console.Flush.{flush_task_console_lem}
use avisor.Shell.{Out, puts, entering, einval, neg, code_avoid_shell_prompt_str}
use avisor.Uart.{Host, with_task}
use avisor.Uart.Consoles.{IsHost, flushed, flush_running-console, with_task-IsHost}
use avisor.Command.{then_again, flush_again, flush_twice, entered, task_id, shell_cmd_vmc}

-- The VM with the keyboard, what it had to say printed first.
pub record Entered (h : Host) (id : ℕ) (o : Option (ℕ × Host × List Out)) : Type 0 where
  pub vm : Task
  pub was_there : task_at h.sys.task id ≡ some vm
  pub host : Host
  pub more : List Out
  pub ends :
      o
      ≡ some (
        code_avoid_shell_prompt_str,
        host,
        entering id ∷ puts (map (λ v. v % 256) (contents vm.console.out_fifo)) ∷ more,
      )
  pub kept : IsHost host
  pub keyboard : host.uart_forwarded_task ≡ id

-- The keyboard is given to a task that is there.
gives :
    (h : Host) (id : ℕ)
    → IsHost h
    → id < h.sys.nr_tasks
    → Entered h id (
        entered id (flush_twice (record h { uart_forwarded_task = id }) id (task_at h.sys.task id)))
unfolding flush_twice flush_again then_again entered
gives h id v lt =
    let (tsk, at, rings) = v.tasks id lt in
    let (after, ends, ok, _, _) = flush_task_console_lem tsk rings in
    let to : Host = record h { uart_forwarded_task = id } in
    let v' : IsHost to = record { console_in = lt; places = v.places; tasks = v.tasks } in
    let second =
      flushed (with_task to id after) id after (with_task-IsHost to id after v' lt ok) lt ok in
    record {
      vm = tsk;
      was_there = at;
      host = second.host;
      more = second.out;
      ends =
          ap (λ o. entered id (flush_twice to id o)) at
          ∙ ap (λ o. entered id (flush_again to id o)) ends
          ∙ ap (λ o. entered id (then_again (map (λ v. v % 256) (contents tsk.console.out_fifo)) o))
              second.ends;
      kept = second.kept;
      keyboard = flush_running-console (with_task to id after) id after ok second;
    }

not_below : (a b : ℕ) → leb a b ≡ true → a ≤ b
not_below a b e = ground arith

below : (a b : ℕ) → leb a b ≡ false → b < a
below a b e = ground arith

not_zero : (a : ℕ) → (a == 0) ≡ false → 0 < a
not_zero a e = ground arith

-- Every line of the command: no number, or 0, changes nothing; the number of no task has the status
-- -EINVAL and changes nothing; and the number of a task gives it the keyboard, after its output,
-- oldest first, with well-formed rings and without a prompt.
shell_cmd_vmc_lem :
    (argv : List (List ℕ)) (h : Host)
    → IsHost h
    → let id = task_id argv in
      ((id ≡ 0) × (shell_cmd_vmc argv h ≡ some (0, h, [])))
      ⊎ ((h.sys.nr_tasks ≤ id) × (shell_cmd_vmc argv h ≡ some (neg einval, h, [])))
      ⊎ ((0 < id) × (id < h.sys.nr_tasks) × Entered h id (shell_cmd_vmc argv h))
unfolding shell_cmd_vmc
shell_cmd_vmc_lem argv h v =
    let id = task_id argv in
    elim (Bool-cases (id == 0)) [
      | inl e ↦ inl ((==_iff id 0).0 e, rw e refl)
      | inr e ↦ elim (Bool-cases (leb h.sys.nr_tasks id)) [
        | inl f ↦ inr (inl (not_below h.sys.nr_tasks id f, rw (e, f) refl))
        | inr f ↦ inr (
            inr (
              not_zero id e,
              below h.sys.nr_tasks id f,
              rw (e, f) (gives h id v (below h.sys.nr_tasks id f)),
            ))
      ]
    ]
