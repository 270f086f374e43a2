-- ===== src/TaskPool.antt =====
-- `PrioritizedTaskPool` of src/subnet/server/task_pool.py: handlers submit tasks, the pool's thread
-- puts them in order, and the runtime takes them, runs them and sends back their results.
-- Priorities and times are floats that are only compared: they are numbers here.
pub mod Order
pub mod Conservation
pub mod Priority
mod Tests
use subnet_llm_template.Prelude.{
  ℕ, zero, suc, ◌+◌, ◌-◌, ◌*◌, Bool, true, false, ◌&&◌, ◌||◌, not, Option, none, some, List, [],
  ◌∷◌, ◌++◌, ltb, ◌==◌, if◌then◌else◌,
}
use subnet_llm_template.Prelude.Dict.{Dict, lookup, insert, erase}

-- `args` are the shapes of the input tensors.
pub record Task : Type 0 where
  pub priority : ℕ
  pub time_submitted : ℕ
  pub uid : ℕ
  pub args : List (List ℕ)

-- What is set on a future: `batch_outputs` or an exception, each by a number that names it.
pub data Reply : Type 0 where
  result : ℕ → Reply
  error : ℕ → Reply
  too_large : Reply

-- `submitted_tasks` holds tasks, and `None` to stop the thread.
pub data Entry : Type 0 where
  task : Task → Entry
  stop : Entry

-- `none` is the priority `(inf, inf)`. The queue of `PriorityQueue` is kept in order; `unfinished`
-- counts what is in the pipe from `batch_sender` to `batch_receiver`.
pub record Pool : Type 0 where
  pub max_batch_size : ℕ
  pub submitted_tasks : List Entry
  pub ordered_tasks : List Task
  pub dispatched_tasks : Dict Task
  pub unfinished : ℕ
  pub priority : Option (ℕ × ℕ)
  pub futures : List (ℕ × Reply)
  pub running : Bool

abbrev pub key : Task → ℕ × ℕ
key t = (t.priority, t.time_submitted)

-- Python's order of pairs, by which `Task` is ordered too.
abbrev pub before : ℕ × ℕ → ℕ × ℕ → Bool
before (a, b) (c, d) = ltb a c || (a == c && ltb b d)

abbrev pub more_urgent : ℕ × ℕ → Option (ℕ × ℕ) → Bool
more_urgent k none = true
more_urgent k (some p) = before k p

abbrev pub init : ℕ → Pool
init max_batch_size = record {
  max_batch_size = max_batch_size;
  submitted_tasks = [];
  ordered_tasks = [];
  dispatched_tasks = [];
  unfinished = 0;
  priority = none;
  futures = [];
  running = true;
}

abbrev pub shape_size : List (List ℕ) → ℕ
shape_size [] = 1
shape_size ([] ∷ args) = 1
shape_size ((n ∷ []) ∷ args) = 1
shape_size ((n ∷ m ∷ shape) ∷ args) = n * m

-- `get_task_size`: the tokens of the first input, if it is a matrix or more.
unfoldable pub get_task_size : Task → ℕ
get_task_size t = shape_size t.args

unfoldable pub submit_task : Task → Pool → Pool
unfolding get_task_size
submit_task t p =
    if ltb p.max_batch_size (get_task_size t)
    then record p { futures = (t.uid, too_large) ∷ p.futures }
    else record p {
      submitted_tasks = p.submitted_tasks ++ task t ∷ [];
      unfinished = p.unfinished + 1;
      priority = if more_urgent (key t) p.priority then some (key t) else p.priority;
    }

-- `PriorityQueue.put`
unfoldable pub put : Task → List Task → List Task
put t [] = t ∷ []
put t (u ∷ ts) = if before (key t) (key u) then t ∷ u ∷ ts else u ∷ put t ts

-- One round of the loop of `run`, with what `submitted_tasks.get()` gives.
abbrev pub run_entry : Entry → List Entry → Pool → Pool
run_entry (task t) rest p = record p {
  submitted_tasks = rest;
  ordered_tasks = put t p.ordered_tasks;
}
run_entry stop rest p = record p { submitted_tasks = rest; running = false }

abbrev pub run_next : List Entry → Pool → Pool
run_next [] p = p
run_next (e ∷ rest) p = run_entry e rest p

unfoldable pub run : Pool → Pool
unfolding put
run p = if p.running then run_next p.submitted_tasks p else p

unfoldable pub shutdown : Pool → Pool
shutdown p = record p { submitted_tasks = p.submitted_tasks ++ stop ∷ [] }

abbrev pub next_priority : List Task → Option (ℕ × ℕ) → Option (ℕ × ℕ)
next_priority [] old = old
next_priority (t ∷ ts) old = some (key t)

-- `none`: nothing came within the timeout, and `PriorityQueue.get` raises.
abbrev pub load_from : List Task → Pool → Option Task × Pool
load_from [] p = (none, p)
load_from (t ∷ ts) p = (
  some t,
  record p {
    ordered_tasks = ts;
    dispatched_tasks = insert t.uid t p.dispatched_tasks;
    unfinished = p.unfinished - 1;
    priority = next_priority ts p.priority;
  },
)

unfoldable pub load_batch_to_runtime : Pool → Option Task × Pool
load_batch_to_runtime p = load_from p.ordered_tasks p

-- `pop(uid, None)` and `set_result` or `set_exception`: a task that is missing is only logged.
abbrev pub send_to : Option Task → ℕ → Reply → Pool → Pool
send_to none uid reply p = p
send_to (some t) uid reply p = record p {
  dispatched_tasks = erase uid p.dispatched_tasks;
  futures = (t.uid, reply) ∷ p.futures;
}

unfoldable pub send : ℕ → Reply → Pool → Pool
send uid reply p = send_to (lookup uid p.dispatched_tasks) uid reply p

unfoldable pub send_outputs_from_runtime : ℕ → ℕ → Pool → Pool
unfolding send
send_outputs_from_runtime uid batch_outputs p = send uid (result batch_outputs) p

unfoldable pub send_exception_from_runtime : ℕ → ℕ → Pool → Pool
unfolding send
send_exception_from_runtime uid exception p = send uid (error exception) p

-- The property `empty`: nothing is in the pipe.
unfoldable pub empty : Pool → Bool
empty p = p.unfinished == 0
