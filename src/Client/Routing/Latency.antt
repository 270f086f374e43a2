-- ===== src/Client/Routing/Latency.antt =====
-- `_make_sequence_with_min_latency` of src/subnet/client/routing/sequence_manager.py: the path of least
-- delay in the graph, made to spans.
pub mod Graph
pub mod Records
pub mod Edges
pub mod Route
pub mod Found
use subnet_llm_template.Prelude.{
  ℕ, zero, suc, ◌+◌, ◌-◌, ◌*◌, min, max, Bool, true, false, ◌&&◌, Option, none, some, List, [], ◌∷◌,
  ◌++◌, length, get_elem?, ◌==◌, ltb, if◌then◌else◌,
}
use subnet_llm_template.Prelude.Int.{ℤ, pos, pos_part, ◌*ℤ◌, ltb_ℤ, leb_ℤ}
use subnet_llm_template.Prelude.Dict.{Dict, lookup, insert}
use subnet_llm_template.Swarm.Data.{ServerInfo, RemoteSpanInfo, length as span_length}
use subnet_llm_template.Swarm.Blocks.{blocks_from}
use subnet_llm_template.Client.Routing.Latency.Graph.{
  Delays, Node, start_node, end_node, before, Edge, all_served, server_infos, build_inference_graph,
}

abbrev pub new_span : ℕ → ℕ → Option ServerInfo → Option (List RemoteSpanInfo)
new_span peer_id block none = none
new_span peer_id block (some info) =
    some (record { peer_id = peer_id; start = block; end = pos block; server_info = info } ∷ [])

abbrev pub prepend_span :
    RemoteSpanInfo → Option (List RemoteSpanInfo) → Option (List RemoteSpanInfo)
prepend_span s none = none
prepend_span s (some spans) = some (s ∷ spans)

-- A node of the path goes to the last span, or begins one.
unfoldable pub visit : Dict ServerInfo → List RemoteSpanInfo → ℕ → ℕ → Option (List RemoteSpanInfo)
visit infos [] peer_id block = new_span peer_id block (lookup peer_id infos)
visit infos (s ∷ []) peer_id block =
    if s.peer_id == peer_id
    then some (record s { end = pos block } ∷ [])
    else prepend_span s (new_span peer_id block (lookup peer_id infos))
visit infos (s ∷ t ∷ spans) peer_id block = prepend_span s (visit infos (t ∷ spans) peer_id block)

abbrev pub go_on :
    (List RemoteSpanInfo → Option (List RemoteSpanInfo))
    → Option (List RemoteSpanInfo)
    → Option (List RemoteSpanInfo)
go_on rest none = none
go_on rest (some spans) = rest spans

-- The loop over the nodes of the path but the first and the last.
unfoldable pub visit_nodes :
    Dict ServerInfo → List Node → List RemoteSpanInfo → Option (List RemoteSpanInfo)
unfolding visit
visit_nodes infos [] spans = some spans
visit_nodes infos (start_node ∷ nodes) spans = none
visit_nodes infos (end_node ∷ nodes) spans = none
visit_nodes infos (before peer_id block ∷ nodes) spans =
    go_on (visit_nodes infos nodes) (visit infos spans peer_id block)

abbrev pub drop_empty : List RemoteSpanInfo → List RemoteSpanInfo
drop_empty [] = []
drop_empty (s ∷ spans) =
    if ltb_ℤ (pos 0) (span_length s) then s ∷ drop_empty spans else drop_empty spans

abbrev without_empty : Option (List RemoteSpanInfo) → Option (List RemoteSpanInfo)
without_empty none = none
without_empty (some spans) = some (drop_empty spans)

-- `path.nodes[1:-1]`
abbrev pub inner : List Node → List Node
inner [] = []
inner (n ∷ []) = []
inner (n ∷ m ∷ nodes) = n ∷ inner (m ∷ nodes)

abbrev tail : List Node → List Node
tail [] = []
tail (n ∷ nodes) = nodes

-- `find_path` is what dijkstar gives for a graph, `none` where it raises.
module _ (delays : Delays) (find_path : List (Edge delays) → Option (List Node)) where
  abbrev pub follow : Dict ServerInfo → Option (List Node) → Option (List RemoteSpanInfo)
  follow infos none = none
  follow infos (some nodes) = without_empty (visit_nodes infos (inner (tail nodes)) [])

  abbrev pub search : Dict ServerInfo → Option (List (Edge delays)) → Option (List RemoteSpanInfo)
  search infos none = none
  search infos (some graph) = follow infos (find_path graph)

  unfoldable pub make_sequence_with_min_latency :
      Dict ℕ
      → Option ℕ
      → ℕ
      → ℕ
      → List RemoteSpanInfo
      → List (List RemoteSpanInfo)
      → Option (List RemoteSpanInfo)
  unfolding visit_nodes span_length ◌*ℤ◌
  make_sequence_with_min_latency rtts needed start_index end_index by_priority containing =
      let blocks = blocks_from start_index (end_index - start_index) in
      let found =
        search (server_infos containing blocks [])
          (build_inference_graph delays rtts needed start_index end_index by_priority containing) in
      if start_index == end_index
      then some []
      else if all_served containing blocks
      then found
      else none
