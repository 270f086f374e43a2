-- ===== src/Substrate/Scores/Retrieval.antt =====
-- get_consensus_data of src/subnet/substrate/utils.py: the nodes of the chain, the report of the health
-- monitor, and the scores of both.
use subnet_llm_template.Prelude.{Option, none, some, List, map}
use subnet_llm_template.Substrate.{Action, give, ◌>>=◌}
use subnet_llm_template.Substrate.Interface.{Interface, Value, Session, Tenacity, on_world}
use subnet_llm_template.Substrate.Queries.{or_throw, get_subnet_nodes_included}
use subnet_llm_template.Substrate.Nodes.{Codec, list_from_vec_u8}
use subnet_llm_template.Substrate.Scores.{HealthEntry}
use subnet_llm_template.Substrate.Scores.Shares.{
  Floats, Consensus, broken, get_blockchain_peers_consensus_data,
}

module _ (F : Floats) where
  -- `run` of the scoring protocol is an action on the world.
  module _ {I : Interface} (C : Codec I) (T : Tenacity I)
      (run : Action I.World (Option (List HealthEntry))) where
    abbrev pub with_nodes : Option I.Reply → Action (Session I) Consensus
    with_nodes none = give broken
    with_nodes (some reply) = or_throw (C.result reply) >>= λ vec_u8.
        list_from_vec_u8 C vec_u8 >>= λ nodes. on_world run >>= λ health.
        or_throw (get_blockchain_peers_consensus_data F (map (λ n. n.peer_id) nodes) health)

    unfoldable pub get_consensus_data : Value → Action (Session I) Consensus
    unfolding get_subnet_nodes_included list_from_vec_u8 get_blockchain_peers_consensus_data
    get_consensus_data subnet_id = get_subnet_nodes_included T subnet_id >>= with_nodes

    -- word for word the same
    unfoldable pub get_consensus_data_with_speed : Value → Action (Session I) Consensus
    unfolding get_subnet_nodes_included list_from_vec_u8 get_blockchain_peers_consensus_data
    get_consensus_data_with_speed subnet_id = get_subnet_nodes_included T subnet_id >>= with_nodes
