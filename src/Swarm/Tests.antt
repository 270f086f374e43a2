-- ===== src/Swarm/Tests.antt =====
-- Spans of a small swarm, and the theorems at concrete inputs.
mod Moves
use subnet_llm_template.Prelude.{
  some, ◌*◌, false, get_elem?, ℕ, ◌+◌, ◌≤◌, ◌≡◌, refl, none, List, [], ◌∷◌, arith,
}
use subnet_llm_template.Prelude.Int.{◌+ℤ◌, pos}
use subnet_llm_template.Prelude.Dict.{Dict, lookup}
use subnet_llm_template.Swarm.Data.{
  ServerState, offline, joining, online, ServerInfo, RemoteModuleInfo, RemoteSpanInfo,
}
use subnet_llm_template.Swarm.Spans.{compute_spans}
use subnet_llm_template.Swarm.Spans.Bounds.{AllSpans, compute_spans-AllSpans}
use subnet_llm_template.Swarm.Spans.States.{AreDicts, peer_span, lookup-compute_spans}
use subnet_llm_template.Swarm.Spans.Coverage.{state_of, best_state, state-compute_spans}
use subnet_llm_template.Swarm.Blocks.{
  compute_throughputs, choose_best_start, choose_best_blocks, lex_ltb, window,
}
use subnet_llm_template.Swarm.Blocks.Throughputs.{share_of_all, compute_throughputs_lem}
use subnet_llm_template.Swarm.Blocks.Best.{choose_best_start_lem}
use subnet_llm_template.Swarm.Modules.{Entry, read_entries, last_entry, lookup-read_entries}

abbrev server : ServerState → ServerInfo
server s = record {
  state = s;
  throughput = 10;
  start_block = none;
  end_block = none;
  inference_rps = none;
  adapters = [];
  cache_tokens_left = none;
  next_pings = none;
}

abbrev block : ℕ → Dict ServerInfo → RemoteModuleInfo
block i servers = record { uid = record { dht_prefix = 0; index = i }; servers = servers }

abbrev swarm : List RemoteModuleInfo
swarm =
    block 0 ((4, server online) ∷ (2, server joining) ∷ [])
    ∷ block 1 ((2, server online) ∷ (4, server online) ∷ [])
    ∷ block 2 ((2, server online) ∷ (9, server offline) ∷ [])
    ∷ []

swarm-AreDicts : AreDicts swarm
swarm-AreDicts = ((refl, (refl, tt)), ((refl, (refl, tt)), ((refl, (refl, tt)), tt)))

abbrev span_of_2 : RemoteSpanInfo
span_of_2 = record { peer_id = 2; start = 1; end = pos 3; server_info = server online }

spans-swarm :
    compute_spans swarm joining
    ≡ (2, span_of_2)
      ∷ (4, record { peer_id = 4; start = 0; end = pos 2; server_info = server online })
      ∷ []
unfolding compute_spans
spans-swarm = refl

lookup-compute_spans_example :
    lookup 2 (compute_spans swarm joining) ≡ peer_span 0 3 joining 2 0 swarm none
lookup-compute_spans_example = lookup-compute_spans swarm joining 2 swarm-AreDicts

state-compute_spans_example :
    state_of (lookup 9 (compute_spans swarm joining)) ≡ best_state joining 9 swarm none
state-compute_spans_example = state-compute_spans swarm joining 9 swarm-AreDicts

compute_throughputs_lem_example :
    get_elem? (compute_throughputs (compute_spans swarm joining) 3) 1
    ≡ some (pos (1000 * share_of_all 3 1 (compute_spans swarm joining)))
compute_throughputs_lem_example =
    compute_throughputs_lem (compute_spans swarm joining) 3 1 (omega arith)

-- Blocks 0 and 2 have one server each, and block 1 has two.
chosen : choose_best_start (pos 10000 ∷ pos 20000 ∷ pos 10000 ∷ []) 1 ≡ some 0
unfolding choose_best_start
chosen = refl

chosen_blocks : choose_best_blocks 2 swarm ≡ some (0 ∷ 1 ∷ [])
unfolding choose_best_blocks ◌+ℤ◌
chosen_blocks = refl

choose_best_start_lem_example :
    (0 + 1 ≤ 3)
    × (lex_ltb
          (window (pos 10000 ∷ pos 20000 ∷ pos 10000 ∷ []) 1 2)
          (window (pos 10000 ∷ pos 20000 ∷ pos 10000 ∷ []) 1 0)
        ≡ false)
choose_best_start_lem_example =
    choose_best_start_lem (pos 10000 ∷ pos 20000 ∷ pos 10000 ∷ []) 1 2 chosen (omega arith)

abbrev entries : List Entry
entries =
    record { peer_id = some 4; server_info = some (server joining) }
    ∷ record { peer_id = none; server_info = none }
    ∷ record { peer_id = some 4; server_info = some (server online) }
    ∷ []

lookup-read_entries_example :
    lookup 4 (read_entries none entries []) ≡ last_entry none 4 entries none
lookup-read_entries_example = lookup-read_entries none 4 entries []
