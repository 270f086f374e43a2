-- ===== src/TaskPool/Priority.antt =====
-- The pool's counter of unfinished tasks, the task that the runtime takes, and the priority that
-- the pool shows to the runtime.
use mathlib.Core.Path.{subst₂}
use subnet_llm_template.Prelude.{
  ℕ, ◌+◌, ◌≤◌, ◌≡◌, ◌↔◌, refl, ap, true, Option, none, some, List, [], ◌∷◌, ◌++◌, arith, ltb,
  length, Bool-cases, inl, inr, if-both,
}
use subnet_llm_template.Prelude.Dict.{lookup}
use subnet_llm_template.TaskPool.{
  Task, Entry, task, stop, Pool, key, before, more_urgent, put, submit_task, get_task_size, run,
  run_next, load_from, load_batch_to_runtime, send, send_to, shutdown, init, empty,
}
use subnet_llm_template.TaskPool.Order.{IsOrdered, NoneBefore}
use subnet_llm_template.TaskPool.Conservation.{
  Op, submit, thread, load, reply, close, apply, apply_all, IsSound, apply-IsSound,
}

unfoldable pub tasks_in : List Entry → ℕ
tasks_in [] = 0
tasks_in (task t ∷ es) = tasks_in es + 1
tasks_in (stop ∷ es) = tasks_in es

tasks_in-append :
    (es : List Entry) (e : Entry) → tasks_in (es ++ e ∷ []) ≡ tasks_in es + tasks_in (e ∷ [])
unfolding tasks_in
tasks_in-append [] e = omega arith
tasks_in-append (task t ∷ es) e = omega (arith, tasks_in-append es e)
tasks_in-append (stop ∷ es) e = omega (arith, tasks_in-append es e)

length-put : (t : Task) (ts : List Task) → length (put t ts) ≡ length ts + 1
unfolding put
length-put t [] = refl
length-put t (u ∷ ts) = elim (Bool-cases (before (key t) (key u))) [
  | inl first ↦ rw first (omega arith)
  | inr later ↦ rw later (omega (arith, length-put t ts))
]

abbrev pub IsCounted : Pool → Type 0
IsCounted p = p.unfinished ≡ tasks_in p.submitted_tasks + length p.ordered_tasks

apply-IsCounted : (op : Op) (p : Pool) → IsCounted p → IsCounted (apply op p)
unfolding apply submit_task run load_batch_to_runtime send shutdown
apply-IsCounted (submit t) p h = elim (Bool-cases (ltb p.max_batch_size (get_task_size t))) [
  | inl large ↦ rw large h
  | inr fits ↦
      rw fits (unfold tasks_in in omega (arith, tasks_in-append p.submitted_tasks (task t)))
]
apply-IsCounted thread p h = if-both IsCounted p.running _ p (go p.submitted_tasks refl) h
  where
    go : (es : List Entry) → p.submitted_tasks ≡ es → IsCounted (run_next es p)
    go [] e = h
    go (task t ∷ es) e =
        let h' = rw e at h in unfold tasks_in in omega (arith, length-put t p.ordered_tasks, h')
    go (stop ∷ es) e = let h' = rw e at h in unfold tasks_in in h'
apply-IsCounted load p h = go p.ordered_tasks refl
  where
    go : (ts : List Task) → p.ordered_tasks ≡ ts → IsCounted (load_from ts p).1
    go [] e = h
    go (t ∷ ts) e = let h' = rw e at h in omega (arith, h')
apply-IsCounted (reply uid r) p h = go (lookup uid p.dispatched_tasks)
  where
    go : (o : Option Task) → IsCounted (send_to o uid r p)
    go none = h
    go (some t) = h
apply-IsCounted close p h = unfold tasks_in in omega (arith, tasks_in-append p.submitted_tasks stop)

apply_all-IsCounted : (ops : List Op) (p : Pool) → IsCounted p → IsCounted (apply_all ops p)
unfolding apply_all
apply_all-IsCounted [] p h = h
apply_all-IsCounted (op ∷ ops) p h = apply_all-IsCounted ops (apply op p) (apply-IsCounted op p h)

apply_all-IsSound : (ops : List Op) (p : Pool) → IsSound p → IsSound (apply_all ops p)
unfolding apply_all
apply_all-IsSound [] p h = h
apply_all-IsSound (op ∷ ops) p h = apply_all-IsSound ops (apply op p) (apply-IsSound op p h)

-- The pool says that it is empty exactly when no task waits in it, be it in the queue of the
-- handlers or in the order of the runtime.
pub empty_iff :
    (max_batch_size : ℕ) (ops : List Op)
    → let p = apply_all ops (init max_batch_size) in
      (empty p ≡ true) ↔ (tasks_in p.submitted_tasks + length p.ordered_tasks ≡ 0)
unfolding empty
empty_iff n ops = ground (arith, counted)
  where
    counted : IsCounted (apply_all ops (init n))
    counted = apply_all-IsCounted ops (init n) (unfold tasks_in in refl)

loaded_first :
    (ts : List Task) (p : Pool) {t : Task}
    → IsOrdered ts
    → (load_from ts p).0 ≡ some t
    → NoneBefore t (load_from ts p).1.ordered_tasks
loaded_first [] p o e = cc
loaded_first (x ∷ xs) p {t} o e = let same : x ≡ t = cc in rw same at o.0

shown_first :
    (ts : List Task) (p : Pool) {t u : Task} (us : List Task)
    → IsOrdered ts
    → (load_from ts p).0 ≡ some t
    → (load_from ts p).1.ordered_tasks ≡ u ∷ us
    → ((load_from ts p).1.priority ≡ some (key u)) × NoneBefore u us
shown_first [] p us o e r = cc
shown_first (x ∷ []) p us o e r = cc
shown_first (x ∷ y ∷ ys) p {t} {u} us o e r =
    let head : y ≡ u = cc in
    let rest : ys ≡ us = cc in (ap (λ v. some (key v)) head, subst₂ NoneBefore head rest o.1.0)

apply_all-init-IsSound : (n : ℕ) (ops : List Op) → IsSound (apply_all ops (init n))
apply_all-init-IsSound n ops =
    apply_all-IsSound ops (init n) (record { in_order = tt; is_dict = tt; keyed = tt })

-- The runtime takes a task before which no task goes that is in order.
pub load_most_urgent :
    (max_batch_size : ℕ) (ops : List Op) {t : Task}
    → (load_batch_to_runtime (apply_all ops (init max_batch_size))).0 ≡ some t
    → NoneBefore t (load_batch_to_runtime (apply_all ops (init max_batch_size))).1.ordered_tasks
unfolding load_batch_to_runtime
load_most_urgent n ops e =
    let p = apply_all ops (init n) in
    loaded_first p.ordered_tasks p (apply_all-init-IsSound n ops).in_order e

-- After the runtime has taken a task the pool shows the priority of a remaining task before which
-- no task goes that is in order.
pub load_shows_most_urgent :
    (max_batch_size : ℕ) (ops : List Op) {t u : Task} (us : List Task)
    → (load_batch_to_runtime (apply_all ops (init max_batch_size))).0 ≡ some t
    → (load_batch_to_runtime (apply_all ops (init max_batch_size))).1.ordered_tasks ≡ u ∷ us
    → ((load_batch_to_runtime (apply_all ops (init max_batch_size))).1.priority ≡ some (key u))
      × NoneBefore u us
unfolding load_batch_to_runtime
load_shows_most_urgent n ops us e r =
    let p = apply_all ops (init n) in
    shown_first p.ordered_tasks p us (apply_all-init-IsSound n ops).in_order e r

-- The docstring of `priority` says that it is that of the most important task in the pool. It is
-- not when the thread has yet to move a task: a task that is submitted before everything else in a
-- running pool with two tasks or more in order is forgotten as soon as the runtime takes a task.
pub priority_forgets_submitted :
    (p : Pool) (v t u : Task) (us : List Task)
    → p.ordered_tasks ≡ t ∷ u ∷ us
    → get_task_size v ≤ p.max_batch_size
    → before (key v) (key u) ≡ true
    → more_urgent (key v) p.priority ≡ true
    → ((submit_task v p).priority ≡ some (key v))
      × ((load_batch_to_runtime (submit_task v p)).1.priority ≡ some (key u))
      × ((load_batch_to_runtime (submit_task v p)).1.submitted_tasks
          ≡ p.submitted_tasks ++ task v ∷ [])
unfolding load_batch_to_runtime submit_task
priority_forgets_submitted p v t u us e fits b m = ground arith
