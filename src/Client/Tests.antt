-- ===== src/Client/Tests.antt =====
-- Runs of the client on servers that fail a number of times, and the theorems at concrete inputs.
mod Passes
mod Routes
use mathlib.Core.Path.{subst}
use subnet_llm_template.Prelude.{
  ◌+◌, zero, suc, length, ◌<◌, ◌≤◌, ◌↔◌, get_elem?, Bool, ◌==◌, true, false, ℕ, ◌-◌, ◌≡◌, ◌≢◌, refl,
  none, some, List, [], ◌∷◌, ltb, if◌then◌else◌, arith,
}
use subnet_llm_template.Exec.{ok, raised}
use subnet_llm_template.Client.Connection.{Span, Servers, server_step, set_position, close}
use subnet_llm_template.Client.Connection.Uses.{Use, feed, rewind, effects, use_all}
use subnet_llm_template.Client.Connection.History.{
  fresh, received, recording, HasSeen, use_all-HasSeen,
}
use subnet_llm_template.Client.Session.{
  Client, init, attempt, attempts, blocks, step, choose, use_server, update_sequence,
  enter_server_sessions,
}
use subnet_llm_template.Client.Session.Position.{Moved, step-Moved}
use subnet_llm_template.Client.Session.Retries.{attempts_end}
use subnet_llm_template.Client.Session.Failover.{failure_raises}
use mathlib.Core.List.{Perm}
use subnet_llm_template.Swarm.Spans.{compute_spans}
use subnet_llm_template.Client.Routing.{values}
use subnet_llm_template.Client.Routing.Order.{IsLongestFirst}
use subnet_llm_template.Prelude.Dict.{Dict, lookup}
use subnet_llm_template.Swarm.Data.{ServerInfo, online, RemoteModuleInfo}
use subnet_llm_template.Client.Routing.{sort_spans, usable, make_sequence_with_max_throughput}
use subnet_llm_template.Client.Routing.Sequence.{Found, max_throughput-IsRoute}
use subnet_llm_template.Client.Routing.Table.{
  spans_at, sort_spans_lem, is_listed, usable_iff, banned_if_all,
}
use subnet_llm_template.Exec.Simulation.{map_result}
use subnet_llm_template.Exec.Post.{Post}
use subnet_llm_template.Client.Autograd.{Remote, Forward, start_forward, sequential_forward}
use subnet_llm_template.Client.Autograd.Chain.{Held, IsRoute, FindsRoutes}
use subnet_llm_template.Client.Autograd.Whole.{Any, sequential_forward-Held}
use subnet_llm_template.Client.Session.Timed.{timed_step}
use subnet_llm_template.Client.Session.Untimed.{outputs_of, timed_step-Simulates}

-- The world is the number of requests that are still to fail.
abbrev demo : Servers
demo = record {
  World = ℕ;
  connect = λ span max_length w. (ok tt, w);
  inference = λ r w. if ltb 0 w then (raised, w - 1) else (ok r.inputs, w);
  end_stream = λ span w. (ok tt, w);
  make_sequence =
      λ from to max_length w. (ok (record { peer_id = 7; start = from; end = to } ∷ []), w);
  on_request_success = λ peer_id w. w;
  on_request_failure = λ peer_id w. w;
  sleep_before_retry = λ attempt_no w. (ok tt, w);
}

abbrev all_blocks : Span
all_blocks = record { peer_id = 7; start = 0; end = 4 }

abbrev uses : List (Use (recording demo))
uses = feed (1 ∷ 2 ∷ []) [] [] ∷ feed (3 ∷ []) [] [] ∷ rewind 2 ∷ feed (4 ∷ []) [] [] ∷ []

uses_return : (use_all (recording demo) uses (fresh demo all_blocks 10 0)).0 ≡ ok tt
unfolding use_all server_step set_position
uses_return = refl

-- The step after the step back starts from position 2.
requests_sent :
    received (use_all (recording demo) uses (fresh demo all_blocks 10 0)).1.world.requests
    ≡ some (1 ∷ 2 ∷ 4 ∷ [])
unfolding use_all server_step set_position received
requests_sent = refl

use_all-HasSeen_example :
    let t = (use_all (recording demo) uses (fresh demo all_blocks 10 0)).1 in
    HasSeen t.world.requests (effects (recording demo) uses []) t.session
use_all-HasSeen_example = use_all-HasSeen demo all_blocks 10 uses 0 uses_return

abbrev client : ℕ → Client ℕ
client failures = record { session = init 4 10 (some 3); world = failures }

-- A first step survives a failure, if it is told how often to retry.
survives : (step demo 5 3 (1 ∷ 2 ∷ []) [] [] (some 3) (client 1)).0 ≡ ok (some (1 ∷ 2 ∷ []))
unfolding step attempts blocks attempt choose use_server update_sequence enter_server_sessions
    server_step close
survives = refl

-- Without a number it raises instead of trying again.
does_not_retry : (step demo 5 3 (1 ∷ 2 ∷ []) [] [] none (client 1)).0 ≡ raised
unfolding step attempts blocks attempt choose use_server update_sequence enter_server_sessions
    server_step close
does_not_retry = refl

step-Moved_example : Moved (client 1) 2 (step demo 5 3 (1 ∷ 2 ∷ []) [] [] (some 3) (client 1))
step-Moved_example = step-Moved demo 5 3 (1 ∷ 2 ∷ []) [] [] (some 3) (client 1)

attempts_end_example : (attempts demo 3 (some 3) 0 0 0 (1 ∷ []) [] [] (client 2)).0 ≢ ok none
attempts_end_example =
    attempts_end demo [] [] 3 (some 3) 0 0 0 (1 ∷ []) (client 2) (omega arith) (omega arith)

-- A client that has made a step of two tokens.
abbrev running : ℕ → Client ℕ
running failures = record {
  session = record (init 4 10 (some 3)) {
    position = 2;
    server_sessions =
        record {
          span = all_blocks;
          max_length = 10;
          position = 2;
          history = some (1 ∷ 2 ∷ []);
          stepped = true;
          closed = false;
        }
        ∷ [];
  };
  world = failures;
}

first_attempt_fails : (attempt demo 0 0 0 (3 ∷ []) [] [] (running 1)).0 ≡ ok none
unfolding attempt choose use_server server_step
first_attempt_fails = refl

failure_raises_example : (attempts demo 3 (some 3) 0 0 0 (3 ∷ []) [] [] (running 1)).0 ≡ raised
failure_raises_example =
    failure_raises demo 0 [] [] 3 0 (some 3) (3 ∷ []) (running 1) (omega arith) (omega arith)
      (omega arith) first_attempt_fails

abbrev serves : ℕ → ServerInfo
serves n = record {
  state = online;
  throughput = n;
  start_block = none;
  end_block = none;
  inference_rps = none;
  adapters = [];
  cache_tokens_left = none;
  next_pings = none;
}

abbrev modules : List RemoteModuleInfo
modules =
    record {
      uid = record { dht_prefix = 0; index = 0 };
      servers = (1, serves 5) ∷ (2, serves 7) ∷ [];
    }
    ∷ record { uid = record { dht_prefix = 0; index = 1 }; servers = (2, serves 7) ∷ [] }
    ∷ []

sort_spans_lem_example :
    Perm (sort_spans modules).0 (values (compute_spans modules online))
    × IsLongestFirst (sort_spans modules).0
    × (get_elem? (sort_spans modules).1 1 ≡ some (spans_at 1 (sort_spans modules).0))
sort_spans_lem_example = sort_spans_lem modules 1 (omega arith)

abbrev both : Dict ServerInfo
both = (1, serves 5) ∷ (2, serves 7) ∷ []

abbrev ban : ℕ → Bool
ban k = k == 1

usable_iff_example :
    (lookup 2 (usable none (some (3 ∷ [])) ban both) ≡ some (serves 7))
    ↔ ((is_listed none (some (3 ∷ [])) ban 2 ≡ true) × (lookup 2 both ≡ some (serves 7)))
usable_iff_example = usable_iff none (some (3 ∷ [])) ban both 2 (serves 7) refl

modules_held :
    (block : ℕ) → 0 ≤ block → block < 2 → 0 < length (spans_at block (sort_spans modules).0)
unfolding spans_at sort_spans subnet_llm_template.Swarm.Data.length
    subnet_llm_template.Prelude.Int.◌-ℤ◌
modules_held zero low high = omega arith
modules_held (suc zero) low high = omega arith
modules_held (suc (suc n)) low high = absurd (omega (arith, high))

max_throughput-IsRoute_example :
    Found 0 2
      (make_sequence_with_max_throughput (λ block. block) (2 - 0) 0 2 (sort_spans modules).1)
max_throughput-IsRoute_example =
    max_throughput-IsRoute modules (λ block. block) 0 2 (omega arith) modules_held

abbrev clock : ℕ → ℕ
clock w = 10 - w

timed_step-Simulates_example : step demo 5 3 (1 ∷ 2 ∷ []) [] [] (some 3) (client 1) ≡ (
    let timed = timed_step demo clock 5 3 (1 ∷ 2 ∷ []) [] [] (some 3) (client 1) in
    (map_result outputs_of timed.0, timed.1))
timed_step-Simulates_example =
    timed_step-Simulates demo clock [] [] 5 3 (1 ∷ 2 ∷ []) (some 3) (client 1)
