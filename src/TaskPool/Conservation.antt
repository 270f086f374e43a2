-- ===== src/TaskPool/Conservation.antt =====
-- Where the tasks of the pool are, from `submit_task` to the reply, over any calls of its methods.
use native.Mathlib.Decide.{ℕ_discrete}
use subnet_llm_template.Prelude.{
  ap, if-both, ℕ, ◌+◌, ◌≤◌, ◌≡◌, refl, ◌∙◌, Bool, true, false, Option, none, some, List, [], ◌∷◌,
  ◌++◌, arith, ◌==◌, ltb, Option-cases, Bool-cases, inl, inr,
}
use subnet_llm_template.Prelude.Dict.{
  Dict, IsDict, lookup, insert, erase, lookup-insert, insert-IsDict, erase-IsDict, lookup-erase_ne,
  lookup-erase_self,
}
use subnet_llm_template.TaskPool.{
  run_next, load_from, get_task_size, send_to, Task, Entry, task, stop, Reply, Pool, key, before,
  put, submit_task, run, load_batch_to_runtime, send, shutdown, init,
}
use subnet_llm_template.TaskPool.Order.{IsOrdered, put-IsOrdered}

-- What handlers, the pool's thread and the runtime do, in the order in which it happens.
pub data Op : Type 0 where
  submit : Task → Op
  thread : Op
  load : Op
  reply : ℕ → Reply → Op
  close : Op

unfoldable pub apply : Op → Pool → Pool
apply (submit t) p = submit_task t p
apply thread p = run p
apply load p = (load_batch_to_runtime p).1
apply (reply uid r) p = send uid r p
apply close p = shutdown p

unfoldable pub apply_all : List Op → Pool → Pool
apply_all [] p = p
apply_all (op ∷ ops) p = apply_all ops (apply op p)

abbrev pub one_if : Bool → ℕ
one_if true = 1
one_if false = 0

unfoldable pub submitted_of : ℕ → List Entry → ℕ
submitted_of u [] = 0
submitted_of u (task t ∷ es) = one_if (u == t.uid) + submitted_of u es
submitted_of u (stop ∷ es) = submitted_of u es

unfoldable pub ordered_of : ℕ → List Task → ℕ
ordered_of u [] = 0
ordered_of u (t ∷ ts) = one_if (u == t.uid) + ordered_of u ts

abbrev pub found : {A : Type 0} → Option A → ℕ
found none = 0
found (some _) = 1

unfoldable pub replies_to : ℕ → List (ℕ × Reply) → ℕ
replies_to u [] = 0
replies_to u ((v, _) ∷ rs) = one_if (u == v) + replies_to u rs

-- In how many places the pool has the task `u`: submitted, in order, dispatched, or answered.
unfoldable pub places : ℕ → Pool → ℕ
places u p =
    submitted_of u p.submitted_tasks
    + ordered_of u p.ordered_tasks
    + found (lookup u p.dispatched_tasks)
    + replies_to u p.futures

-- How often the operations submit the task `u`.
unfoldable pub times : ℕ → List Op → ℕ
times u [] = 0
times u (submit t ∷ ops) = one_if (u == t.uid) + times u ops
times u (_ ∷ ops) = times u ops

-- A dispatched task stands under its own uid.
abbrev pub AreKeyed : Dict Task → Type 0
AreKeyed [] = Unit
AreKeyed ((k, t) ∷ d) = (t.uid ≡ k) × AreKeyed d

AreKeyed-insert : (t : Task) (d : Dict Task) → AreKeyed d → AreKeyed (insert t.uid t d)
AreKeyed-insert t [] h = (refl, tt)
AreKeyed-insert t (e ∷ d) h = ground (arith, AreKeyed-insert t d h.1)

AreKeyed-erase : (k : ℕ) (d : Dict Task) → AreKeyed d → AreKeyed (erase k d)
AreKeyed-erase k [] h = tt
AreKeyed-erase k (e ∷ d) h = ground (arith, AreKeyed-erase k d h.1)

AreKeyed-lookup : (k : ℕ) (d : Dict Task) {t : Task} → AreKeyed d → lookup k d ≡ some t → t.uid ≡ k
AreKeyed-lookup k [] h e = cc
AreKeyed-lookup k (x ∷ d) {t} h e = ground (arith, AreKeyed-lookup k d {t = t} h.1)

submitted_of-append :
    (u : ℕ) (es : List Entry) (e : Entry)
    → submitted_of u (es ++ e ∷ []) ≡ submitted_of u es + submitted_of u (e ∷ [])
unfolding submitted_of
submitted_of-append u [] e = omega arith
submitted_of-append u (task t ∷ es) e = omega (arith, submitted_of-append u es e)
submitted_of-append u (stop ∷ es) e = omega (arith, submitted_of-append u es e)

ordered_of-put :
    (u : ℕ) (t : Task) (ts : List Task)
    → ordered_of u (put t ts) ≡ one_if (u == t.uid) + ordered_of u ts
unfolding ordered_of put
ordered_of-put u t [] = refl
ordered_of-put u t (x ∷ ts) = elim (Bool-cases (before (key t) (key x))) [
  | inl first ↦ rw first refl
  | inr later ↦ rw later (omega (arith, ordered_of-put u t ts))
]

pub record IsSound (p : Pool) : Type 0 where
  pub in_order : IsOrdered p.ordered_tasks
  pub is_dict : IsDict p.dispatched_tasks
  pub keyed : AreKeyed p.dispatched_tasks

abbrev with_fields : Pool → List Entry → List Task → Dict Task → List (ℕ × Reply) → Pool
with_fields p es ts d rs = record p {
  submitted_tasks = es;
  ordered_tasks = ts;
  dispatched_tasks = d;
  futures = rs;
}

submit-IsSound : (t : Task) (p : Pool) → IsSound p → IsSound (submit_task t p)
unfolding submit_task
submit-IsSound t p h = ground arith

run-IsSound : (p : Pool) → IsSound p → IsSound (run p)
unfolding run
run-IsSound p h = if-both IsSound p.running _ p (go p.submitted_tasks) h
  where
    go : (es : List Entry) → IsSound (run_next es p)
    go [] = h
    go (task t ∷ es) = record {
      in_order = put-IsOrdered t p.ordered_tasks h.in_order;
      is_dict = h.is_dict;
      keyed = h.keyed;
    }
    go (stop ∷ es) = record { in_order = h.in_order; is_dict = h.is_dict; keyed = h.keyed }

load-IsSound : (p : Pool) → IsSound p → IsSound (load_batch_to_runtime p).1
unfolding load_batch_to_runtime
load-IsSound p h = go p.ordered_tasks h.in_order
  where
    go : (ts : List Task) → IsOrdered ts → IsSound (load_from ts p).1
    go [] o = h
    go (t ∷ ts) o = record {
      in_order = o.1;
      is_dict = insert-IsDict t.uid t p.dispatched_tasks h.is_dict;
      keyed = AreKeyed-insert t p.dispatched_tasks h.keyed;
    }

send-IsSound : (uid : ℕ) (r : Reply) (p : Pool) → IsSound p → IsSound (send uid r p)
unfolding send
send-IsSound uid r p h = elim (Option-cases (lookup uid p.dispatched_tasks)) [
  | inl missing ↦ rw missing h
  | inr (t, e) ↦ rw e (record {
    in_order = h.in_order;
    is_dict = erase-IsDict uid p.dispatched_tasks h.is_dict;
    keyed = AreKeyed-erase uid p.dispatched_tasks h.keyed;
  })
]

pub apply-IsSound : (op : Op) (p : Pool) → IsSound p → IsSound (apply op p)
unfolding apply shutdown
apply-IsSound (submit t) p h = submit-IsSound t p h
apply-IsSound thread p h = run-IsSound p h
apply-IsSound load p h = load-IsSound p h
apply-IsSound (reply uid r) p h = send-IsSound uid r p h
apply-IsSound close p h = record { in_order = h.in_order; is_dict = h.is_dict; keyed = h.keyed }

module _ (u : ℕ) (p : Pool) where
  places-submit : (t : Task) → places u (submit_task t p) ≡ places u p + one_if (u == t.uid)
  unfolding places submit_task submitted_of replies_to
  places-submit t = elim (Bool-cases (ltb p.max_batch_size (get_task_size t))) [
    | inl large ↦ rw large (omega arith)
    | inr fits ↦ rw fits (omega (arith, submitted_of-append u p.submitted_tasks (task t)))
  ]

  places-run : places u (run p) ≡ places u p
  unfolding places run submitted_of
  places-run = if-both (λ q. places u q ≡ places u p) p.running _ p (go p.submitted_tasks refl) refl
    where
      go : (es : List Entry) → p.submitted_tasks ≡ es → places u (run_next es p) ≡ places u p
      go [] e = refl
      go (task t ∷ es) e = rw e (omega (arith, ordered_of-put u t p.ordered_tasks))
      go (stop ∷ es) e = rw e refl

  places-load : ((v : ℕ) → places v p ≤ 1) → places u (load_batch_to_runtime p).1 ≡ places u p
  unfolding places load_batch_to_runtime ordered_of
  places-load once = go p.ordered_tasks refl
    where
      go : (ts : List Task) → p.ordered_tasks ≡ ts → places u (load_from ts p).1 ≡ places u p
      go [] e = refl
      go (t ∷ ts) e =
          let free = rw e at (once t.uid) in
          rw (e, lookup-insert u t.uid t p.dispatched_tasks) (ground (arith, free))

  places-send : (uid : ℕ) (r : Reply) → IsSound p → places u (send uid r p) ≡ places u p
  unfolding places send replies_to
  places-send uid r h = go (lookup uid p.dispatched_tasks) refl
    where
      go :
          (o : Option Task)
          → lookup uid p.dispatched_tasks ≡ o
          → places u (send_to o uid r p) ≡ places u p
      go none e = refl
      go (some t) e =
          let own : t.uid ≡ uid = AreKeyed-lookup uid p.dispatched_tasks h.keyed e in
          let gone = lookup-erase_self uid p.dispatched_tasks h.is_dict in
          let others = lookup-erase_ne u uid p.dispatched_tasks in
          elim (ℕ_discrete u uid) [
            | yes same ↦
                rw (own, same, e, gone) (ground (arith, ap (λ v. replies_to v p.futures) same))
            | no other ↦ rw (own, others other) (ground arith)
          ]

places-apply :
    (u : ℕ) (op : Op) (ops : List Op) (p : Pool)
    → IsSound p
    → ((v : ℕ) → places v p ≤ 1)
    → places u (apply op p) + times u ops ≡ places u p + times u (op ∷ ops)
unfolding apply times shutdown
places-apply u (submit t) ops p h once = omega (arith, places-submit u p t)
places-apply u thread ops p h once = omega (arith, places-run u p)
places-apply u load ops p h once = omega (arith, places-load u p once)
places-apply u (reply uid r) ops p h once = omega (arith, places-send u p uid r h)
places-apply u close ops p h once =
    unfold places in omega (arith, submitted_of-append u p.submitted_tasks stop, nothing)
  where
    nothing : submitted_of u (stop ∷ []) ≡ 0
    nothing = unfold submitted_of in refl

places-apply_all :
    (u : ℕ) (ops : List Op) (p : Pool)
    → IsSound p
    → ((v : ℕ) → places v p + times v ops ≤ 1)
    → places u (apply_all ops p) ≡ places u p + times u ops
unfolding apply_all
places-apply_all u [] p h once = unfold times in omega arith
places-apply_all u (op ∷ ops) p h once =
    places-apply_all u ops (apply op p) (apply-IsSound op p h) (λ v. omega (arith, step v, once v))
    ∙ step u
  where
    step : (v : ℕ) → places v (apply op p) + times v ops ≡ places v p + times v (op ∷ ops)
    step v = places-apply v op ops p h (λ w. omega (arith, once w))

-- Whatever handlers, thread and runtime do and in which order, a task that was submitted is in
-- exactly one place: waiting, in order, dispatched, or answered. A task that was not submitted is
-- in none, provided that no two tasks are submitted under one uid.
pub task_in_one_place :
    (max_batch_size u : ℕ) (ops : List Op)
    → ((v : ℕ) → times v ops ≤ 1)
    → places u (apply_all ops (init max_batch_size)) ≡ times u ops
task_in_one_place n u ops once =
    places-apply_all u ops (init n) (record { in_order = tt; is_dict = tt; keyed = tt })
      (λ v. omega (arith, once v, none_yet v))
    ∙ omega (arith, none_yet u)
  where
    none_yet : (v : ℕ) → places v (init n) ≡ 0
    none_yet v = unfold places submitted_of ordered_of replies_to in refl
