-- ===== src/TaskPool/Tests.antt =====
-- A run of the pool, and the theorems at concrete inputs.
use subnet_llm_template.Prelude.{ℕ, ◌≤◌, ◌≡◌, refl, some, List, [], ◌∷◌, ◌++◌, arith}
use subnet_llm_template.TaskPool.{
  Task, task, result, send, run, too_large, Pool, init, submit_task, load_batch_to_runtime,
}
use subnet_llm_template.TaskPool.Conservation.{
  Op, apply, submit, thread, load, reply, apply_all, places, times, task_in_one_place,
}
use subnet_llm_template.TaskPool.Priority.{priority_forgets_submitted}

abbrev job : ℕ → ℕ → ℕ → Task
job uid priority time = record {
  priority = priority;
  time_submitted = time;
  uid = uid;
  args = (2 ∷ 3 ∷ 8 ∷ []) ∷ [];
}

abbrev big : Task
big = record { priority = 0; time_submitted = 9; uid = 9; args = (10 ∷ 10 ∷ []) ∷ [] }

abbrev ops : List Op
ops =
    submit (job 1 5 1)
    ∷ submit (job 2 3 2)
    ∷ submit (job 3 4 3)
    ∷ submit big
    ∷ thread
    ∷ thread
    ∷ thread
    ∷ []

abbrev pool : Pool
pool = apply_all ops (init 50)

futures-after_reply :
    (apply_all (ops ++ load ∷ reply 2 (result 7) ∷ reply 2 (result 8) ∷ []) (init 50)).futures
    ≡ (2, result 7) ∷ (9, too_large) ∷ []
unfolding apply_all apply submit_task run load_batch_to_runtime send
futures-after_reply = refl

times-le_one : (v : ℕ) → times v ops ≤ 1
unfolding times
times-le_one v = ground arith

task_in_one_place_example : places 2 (apply_all ops (init 50)) ≡ times 2 ops
task_in_one_place_example = task_in_one_place 50 2 ops times-le_one

abbrev two_in_order : Pool
two_in_order = record (init 50) {
  ordered_tasks = job 1 5 1 ∷ job 2 6 2 ∷ [];
  unfinished = 2;
  priority = some (5, 1);
}

priority_forgets_submitted_example :
    ((submit_task (job 3 1 3) two_in_order).priority ≡ some (1, 3))
    × ((load_batch_to_runtime (submit_task (job 3 1 3) two_in_order)).1.priority ≡ some (6, 2))
    × ((load_batch_to_runtime (submit_task (job 3 1 3) two_in_order)).1.submitted_tasks
        ≡ task (job 3 1 3) ∷ [])
unfolding submit_task
priority_forgets_submitted_example =
    priority_forgets_submitted two_in_order (job 3 1 3) (job 1 5 1) (job 2 6 2) [] refl
      (omega arith) refl refl
