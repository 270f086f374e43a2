-- ===== src/Substrate/Scores.antt =====
-- The scores of the epoch: get_blockchain_peers_consensus_data, get_score and get_consensus_data of
-- src/subnet/substrate/utils.py. Here: the servers of the health monitor that are matched to the
-- validators of the chain.
pub mod Shares
pub mod Retrieval
pub mod Matched
pub mod Limits
use Prim.Native.String.{String}
use text.Mathlib.Text.{◌==◌ as ◌=ˢ◌}
use subnet_llm_template.Prelude.{
  map, length, ℕ, ◌+◌, Bool, true, false, ◌||◌, Option, none, some, List, [], ◌∷◌, ◌++◌, ◌==◌,
  if◌then◌else◌,
}
use subnet_llm_template.Prelude.Int.{ℤ, pos, ◌+ℤ◌}
use subnet_llm_template.Consensus.Data.{RewardsData}
use subnet_llm_template.Substrate.{other, Action, give, ◌>>=◌}
use subnet_llm_template.Substrate.Interface.{Interface, Value, Session, Tenacity, on_world}
use subnet_llm_template.Substrate.Queries.{or_throw, get_subnet_nodes_included}
use subnet_llm_template.Substrate.Nodes.{SubnetNode, Codec, payload, list_from_vec_u8}

-- A server of the health monitor's report, by what the code reads of it. The length of a span is
-- negative where a server announces a first block after its last one.
pub record ServerRow : Type 0 where
  pub peer_id : ℕ
  pub span_length : ℤ
  pub using_relay : Bool

-- The dicts that `ScoringProtocol.run` returns, entry by entry in their order.
pub data ModelEntry : Type 0 where
  state : String → ModelEntry
  model_num_blocks : ℕ → ModelEntry
  server_rows : List ServerRow → ModelEntry
  other_entry : ModelEntry

pub data HealthEntry : Type 0 where
  model_reports : List (List ModelEntry) → HealthEntry
  other_entry : HealthEntry

-- The variables of the loops over validators, reports and servers.
pub record Tally : Type 0 where
  pub model_state : String
  pub total_blocks : ℤ
  pub num_blocks : ℕ
  pub initial_peers : List ServerRow

abbrev pub add_server : ServerRow → Tally → Tally
add_server server tally = record tally {
  total_blocks = tally.total_blocks +ℤ server.span_length;
  initial_peers = tally.initial_peers ++ (server ∷ []);
}

-- Up to the first server that is the peer's.
unfoldable pub match_rows : ℕ → List ServerRow → Tally → Tally
match_rows peer [] tally = tally
match_rows peer (server ∷ servers) tally =
    if peer == server.peer_id then add_server server tally else match_rows peer servers tally

-- A broken state ends the loop over the report's entries.
unfoldable pub read_report : ℕ → List ModelEntry → Tally → Tally
unfolding match_rows
read_report peer [] tally = tally
read_report peer (state model_state ∷ entries) tally =
    let next = record tally { model_state = model_state } in
    let rest = read_report peer entries next in if model_state =ˢ "broken" then next else rest
read_report peer (model_num_blocks n ∷ entries) tally =
    read_report peer entries (record tally { num_blocks = n })
read_report peer (server_rows servers ∷ entries) tally =
    read_report peer entries (match_rows peer servers tally)
read_report peer (other_entry ∷ entries) tally = read_report peer entries tally

unfoldable pub read_reports : ℕ → List (List ModelEntry) → Tally → Tally
unfolding read_report
read_reports peer [] tally = tally
read_reports peer (report ∷ reports) tally =
    read_reports peer reports (read_report peer report tally)

unfoldable pub read_health : ℕ → List HealthEntry → Tally → Tally
unfolding read_reports
read_health peer [] tally = tally
read_health peer (model_reports reports ∷ health) tally =
    read_health peer health (read_reports peer reports tally)
read_health peer (other_entry ∷ health) tally = read_health peer health tally

unfoldable pub match_peers : List ℕ → List HealthEntry → Tally → Tally
unfolding read_health
match_peers [] health tally = tally
match_peers (peer ∷ peers) health tally = match_peers peers health (read_health peer health tally)

abbrev pub start : Tally
start = record { model_state = "broken"; total_blocks = pos 0; num_blocks = 0; initial_peers = [] }
