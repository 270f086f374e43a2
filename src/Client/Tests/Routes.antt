-- ===== src/Client/Tests/Routes.antt =====
-- A run of the choice of a sequence of least delay, and its theorem at a concrete input.
use subnet_llm_template.Prelude.{
  ℕ, ◌+◌, ◌/◌, ◌≡◌, refl, Bool, true, false, ◌&&◌, Option, none, some, List, [], ◌∷◌, arith, min,
  ◌==◌, if◌then◌else◌, Bool-cases, inl, inr,
}
use subnet_llm_template.Prelude.Int.{pos, ◌-ℤ◌, ◌*ℤ◌}
use subnet_llm_template.Swarm.Data.{online, ServerInfo, RemoteSpanInfo, length as span_length}
use subnet_llm_template.Client.Routing.Latency.Graph.{
  Delays, Node, start_node, end_node, before, Edge,
}
use subnet_llm_template.Client.Routing.Latency.{make_sequence_with_min_latency, visit, visit_nodes}
use subnet_llm_template.Client.Routing.Latency.Route.{HasEdge, IsPath, FindsPaths}
use subnet_llm_template.Client.Routing.Latency.Found.{
  graph_of, Gives, min_latency-IsSequence, zero_rate_raises,
}

-- Delays in thousandths of a second.
abbrev millis : Delays
millis = record {
  Delay = ℕ;
  add = λ a b. a + b;
  least = λ a b. min a b;
  half = λ rtt. rtt / 2;
  inverse = λ rps. 1000 / rps;
  overhead_delay = 18;
  alloc_delay = 10000;
  default_delay = 150;
  max_delay = 5000;
  default_inference_rps = 300;
}

abbrev same_node : Node → Node → Bool
same_node start_node start_node = true
same_node start_node end_node = false
same_node start_node (before q c) = false
same_node end_node start_node = false
same_node end_node end_node = true
same_node end_node (before q c) = false
same_node (before p b) start_node = false
same_node (before p b) end_node = false
same_node (before p b) (before q c) = p == q && b == c

same_node_eq : (m n : Node) → same_node m n ≡ true → m ≡ n
same_node_eq start_node start_node h = refl
same_node_eq start_node end_node h = absurd (cc)
same_node_eq start_node (before q c) h = absurd (cc)
same_node_eq end_node start_node h = absurd (cc)
same_node_eq end_node end_node h = refl
same_node_eq end_node (before q c) h = absurd (cc)
same_node_eq (before p b) start_node h = absurd (cc)
same_node_eq (before p b) end_node h = absurd (cc)
same_node_eq (before p b) (before q c) h =
    let same : p ≡ q = ground arith in let here : b ≡ c = ground arith in cc

abbrev has_edge : List (Edge millis) → Node → Node → Bool
has_edge [] a b = false
has_edge (e ∷ edges) a b =
    let rest = has_edge edges a b in if same_node e.from a && same_node e.to b then true else rest

-- The edges from `a` on.
abbrev has_path : List (Edge millis) → Node → List Node → Bool
has_path graph a [] = same_node a end_node
has_path graph a (b ∷ nodes) = has_edge graph a b && has_path graph b nodes

abbrev route : List Node
route = before 7 0 ∷ before 7 1 ∷ before 9 1 ∷ before 9 2 ∷ end_node ∷ []

-- A search that looks for one route only.
abbrev find_route : List (Edge millis) → Option (List Node)
find_route graph = if has_path graph start_node route then some (start_node ∷ route) else none

has_edge-HasEdge :
    (edges : List (Edge millis)) (a b : Node) → has_edge edges a b ≡ true → HasEdge edges a b
has_edge-HasEdge [] a b h = absurd (cc)
has_edge-HasEdge (e ∷ edges) a b h = elim (Bool-cases (same_node e.from a)) [
  | inl from ↦ elim (Bool-cases (same_node e.to b)) [
    | inl to ↦ inl (same_node_eq e.from a from, same_node_eq e.to b to)
    | inr other ↦ inr (has_edge-HasEdge edges a b (rw (from, other) at h))
  ]
  | inr other ↦ inr (has_edge-HasEdge edges a b (rw other at h))
]

has_path-IsPath :
    (graph : List (Edge millis)) (a : Node) (nodes : List Node)
    → has_path graph a nodes ≡ true
    → IsPath graph a nodes
has_path-IsPath graph a [] h = same_node_eq a end_node h
has_path-IsPath graph a (b ∷ nodes) h = elim (Bool-cases (has_edge graph a b)) [
  | inl edge ↦ (has_edge-HasEdge graph a b edge, has_path-IsPath graph b nodes (rw edge at h))
  | inr none_there ↦ absurd (cc)
]

find_route-FindsPaths : FindsPaths millis find_route
find_route-FindsPaths graph nodes found = elim (Bool-cases (has_path graph start_node route)) [
  | inl there ↦
      let same : some (start_node ∷ route) ≡ some nodes = rw there at found in
      (route, cc, has_path-IsPath graph start_node route there)
  | inr none_there ↦ absurd (cc)
]

abbrev serves : ServerInfo
serves = record {
  state = online;
  throughput = 5;
  start_block = none;
  end_block = none;
  inference_rps = some 20;
  adapters = [];
  cache_tokens_left = some 100;
  next_pings = none;
}

abbrev first : RemoteSpanInfo
first = record { peer_id = 7; start = 0; end = pos 1; server_info = serves }

abbrev second : RemoteSpanInfo
second = record { peer_id = 9; start = 1; end = pos 2; server_info = serves }

abbrev table : List (List RemoteSpanInfo)
table = (first ∷ []) ∷ (second ∷ []) ∷ []

both_servers :
    make_sequence_with_min_latency millis find_route [] (some 8) 0 2 (first ∷ second ∷ []) table
    ≡ some (first ∷ second ∷ [])
unfolding make_sequence_with_min_latency visit_nodes visit span_length ◌*ℤ◌ ◌-ℤ◌
both_servers = refl

min_latency-IsSequence_example :
    (graph : List (Edge millis)) × (graph_of find_route-FindsPaths []
        (some 8)
        0
        2
        (first ∷ second ∷ [])
        table
      ≡ some graph)
    × Gives find_route-FindsPaths [] (some 8) 0 2 (first ∷ second ∷ []) table (find_route graph) (
        make_sequence_with_min_latency millis find_route []
          (some 8)
          0
          2
          (first ∷ second ∷ [])
          table)
min_latency-IsSequence_example =
    min_latency-IsSequence find_route-FindsPaths [] (some 8) 0 2 (first ∷ second ∷ []) table
      (omega arith) refl (omega arith, (omega arith, tt))

-- A server that gives a rate of 0, beside one that does not.
abbrev idle : RemoteSpanInfo
idle = record {
  peer_id = 8;
  start = 0;
  end = pos 2;
  server_info = record serves { inference_rps = some 0 };
}

zero_rate_raises_example :
    make_sequence_with_min_latency millis find_route [] none 0 2
      (idle ∷ first ∷ second ∷ [])
      ((first ∷ idle ∷ []) ∷ (second ∷ idle ∷ []) ∷ [])
    ≡ none
zero_rate_raises_example =
    zero_rate_raises millis find_route [] none 0 2 (idle ∷ first ∷ second ∷ [])
      ((first ∷ idle ∷ []) ∷ (second ∷ idle ∷ []) ∷ []) (omega arith) (inl (refl, refl))
