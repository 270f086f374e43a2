-- ===== src/Client/Routing/Latency/Found.antt =====
-- A sequence is found wherever a path is.
use mathlib.Core.Path.{subst}
use subnet_llm_template.Prelude.{
  ◌≡◌, refl, ◌<◌, ◌⊎◌, inl, inr, arith, Bool-cases, ℕ, ◌-◌, true, false, ◌&&◌, Option, none, some,
  List, [], ◌∷◌, ◌==◌,
}
use subnet_llm_template.Prelude.Int.{pos}
use subnet_llm_template.Prelude.Dict.{Dict}
use subnet_llm_template.Swarm.Data.{ServerInfo, RemoteSpanInfo}
use subnet_llm_template.Swarm.Blocks.{blocks_from}
use subnet_llm_template.Client.Routing.Latency.Graph.{
  Delays, Node, start_node, end_node, before, Edge, all_served, server_infos, rps_of, is_some,
  blocks_of, through, build_inference_graph,
}
use subnet_llm_template.Client.Routing.Latency.Records.{server_infos-AllKnown}
use subnet_llm_template.Client.Routing.Latency.Edges.{
  IsLink, AreLinks, AllGiveRates, build_inference_graph-AreLinks,
}
use subnet_llm_template.Client.Routing.Latency.{
  visit, visit_nodes, drop_empty, inner, follow, make_sequence_with_min_latency,
}
use subnet_llm_template.Client.Routing.Latency.Route.{
  HasEdge, IsPath, FindsPaths, Follows, IsSequence, LastPeer, visit-Visited, drop_empty-IsSequence,
}

module _ (delays : Delays) (infos : Dict ServerInfo) (by_priority : List RemoteSpanInfo)
    (start_index end_index : ℕ) (graph : List (Edge delays))
    (links : AreLinks delays infos by_priority start_index end_index graph) where
  abbrev Link : Node → Node → Type 0
  Link a b = IsLink infos by_priority start_index end_index a b

  HasEdge-IsLink :
      (edges : List (Edge delays)) (a b : Node)
      → AreLinks delays infos by_priority start_index end_index edges
      → HasEdge edges a b
      → Link a b
  HasEdge-IsLink [] a b h edge = absurd edge
  HasEdge-IsLink (e ∷ edges) a b (link, h) (inl (from, to)) =
      subst (λ n. Link n b) from (subst (λ n. Link e.from n) to link)
  HasEdge-IsLink (e ∷ edges) a b (link, h) (inr edge) = HasEdge-IsLink edges a b h edge

  link : (a b : Node) → HasEdge graph a b → Link a b
  link a b edge = HasEdge-IsLink graph a b links edge

  abbrev Ends : Option (List RemoteSpanInfo) → Type 0
  Ends found =
      (out : List RemoteSpanInfo) × (found ≡ some out)
      × Follows by_priority start_index end_index out

  -- The nodes after the node of the server `p` before the block `b`.
  visit_nodes-Ends :
      (p b : ℕ) (nodes : List Node) (spans : List RemoteSpanInfo)
      → Follows by_priority start_index b spans
      → LastPeer p spans
      → IsPath graph (before p b) nodes
      → Ends (visit_nodes infos (inner nodes) spans)
  unfolding visit_nodes
  visit_nodes-Ends p b [] spans follows last path = absurd (cc)
  visit_nodes-Ends p b (start_node ∷ nodes) spans follows last (edge, path) =
      absurd (link (before p b) start_node edge)
  visit_nodes-Ends p b (end_node ∷ []) spans follows last (edge, path) =
      let over : b ≡ end_index = link (before p b) end_node edge in
      (spans, refl, subst (λ k. Follows by_priority start_index k spans) over follows)
  visit_nodes-Ends p b (end_node ∷ m ∷ nodes) spans follows last (edge, (next, path)) =
      absurd (link end_node m next)
  visit_nodes-Ends p b (before q c ∷ []) spans follows last (edge, path) = absurd (cc)
  visit_nodes-Ends p b (before q c ∷ m ∷ nodes) spans follows last (edge, path) =
      let (next, found, further, last_q) =
        visit-Visited infos by_priority start_index end_index start_index b p q c spans follows last
          (link (before p b) (before q c) edge) in
      rw found (visit_nodes-Ends q c (m ∷ nodes) next further last_q path)

  path-Ends :
      (nodes : List Node)
      → IsPath graph start_node nodes
      → Ends (visit_nodes infos (inner nodes) [])
  unfolding visit_nodes visit
  path-Ends [] path = absurd (cc)
  path-Ends (start_node ∷ nodes) (edge, path) = absurd (link start_node start_node edge)
  path-Ends (end_node ∷ nodes) (edge, path) = absurd (link start_node end_node edge)
  path-Ends (before q c ∷ []) (edge, path) = absurd (cc)
  path-Ends (before q c ∷ m ∷ nodes) (edge, path) =
      let (at_start, (info, found)) = link start_node (before q c) edge in
      let first : RemoteSpanInfo = record {
        peer_id = q;
        start = c;
        end = pos c;
        server_info = info;
      } in
      rw found (
        visit_nodes-Ends q c (m ∷ nodes) (first ∷ [])
          (at_start, c, refl, omega arith, (λ j low high. absurd (omega arith)), refl) refl path)

module _ {delays : Delays} {find_path : List (Edge delays) → Option (List Node)}
    (finds : FindsPaths delays find_path) (rtts : Dict ℕ) (needed : Option ℕ)
    (start_index end_index : ℕ) (by_priority : List RemoteSpanInfo)
    (containing : List (List RemoteSpanInfo)) where
  -- The graph that is searched.
  abbrev pub graph_of : Option (List (Edge delays))
  graph_of = build_inference_graph delays rtts needed start_index end_index by_priority containing

  -- What is made of the answer of the search.
  abbrev pub Gives : Option (List Node) → Option (List RemoteSpanInfo) → Type 0
  Gives none made = made ≡ none
  Gives (some nodes) made =
      (spans : List RemoteSpanInfo) × (made ≡ some spans)
      × IsSequence by_priority start_index end_index spans

  answer :
      (graph : List (Edge delays)) (infos : Dict ServerInfo) (found : Option (List Node))
      → find_path graph ≡ found
      → AreLinks delays infos by_priority start_index end_index graph
      → Gives found (follow delays find_path infos found)
  answer graph infos none e links = refl
  answer graph infos (some nodes) e links =
      let (rest, shape, path) = finds graph nodes e in
      let (out, visited, follows) =
        path-Ends delays infos by_priority start_index end_index graph links rest path in
      (
        drop_empty out,
        rw (shape, visited) refl,
        drop_empty-IsSequence by_priority start_index end_index out follows,
      )

  -- Where what the search finds in a graph is a path from the start to the end, no block of the range is
  -- missing and no server gives a rate of 0, the graph is built, and a sequence is found exactly if a
  -- path is: its spans follow each other from the start to the end exactly, none of them is empty, and
  -- each one's server holds all blocks of the span.
  pub min_latency-IsSequence :
      start_index < end_index
      → all_served containing (blocks_from start_index (end_index - start_index)) ≡ true
      → AllGiveRates delays by_priority
      → (graph : List (Edge delays)) × (graph_of ≡ some graph)
        × Gives (find_path graph) (
            make_sequence_with_min_latency delays find_path rtts needed start_index end_index
              by_priority containing)
  unfolding make_sequence_with_min_latency
  min_latency-IsSequence less served rates =
      let infos = server_infos containing (blocks_from start_index (end_index - start_index)) [] in
      let (graph, built, links) =
        build_inference_graph-AreLinks delays infos by_priority start_index end_index rtts needed
          containing less rates
          λ b low high.
            server_infos-AllKnown containing start_index (end_index - start_index) b [] low
              (omega arith) in
      let apart : (start_index == end_index) ≡ false = ground arith in
      (graph, built, rw (apart, served, built) (answer graph infos (find_path graph) refl links))

-- One of the spans has a block of the range, and its server gives a rate of 0.
abbrev HasZeroRate : ℕ → ℕ → List RemoteSpanInfo → Type 0
HasZeroRate start_index end_index [] = ⊥
HasZeroRate start_index end_index (s ∷ spans) =
    ((s.server_info.inference_rps ≡ some 0) × (is_some (blocks_of start_index end_index s) ≡ true))
    ⊎ HasZeroRate start_index end_index spans

module _ (delays : Delays) (find_path : List (Edge delays) → Option (List Node)) (rtts : Dict ℕ)
    (needed : Option ℕ) (start_index end_index : ℕ) where
  through-none :
      (spans : List RemoteSpanInfo)
      → HasZeroRate start_index end_index spans
      → through delays start_index end_index spans ≡ none
  through-none [] h = absurd h
  through-none (s ∷ spans) (inl (rate, passed)) = rw (rate, passed) refl
  through-none (s ∷ spans) (inr h) =
      let stuck =
        rps_of delays s.server_info.inference_rps == 0
        && is_some (blocks_of start_index end_index s) in
      rw (through-none spans h)
        (elim (Bool-cases stuck) [ inl raises ↦ rw raises refl | inr passes ↦ rw passes refl ])

  -- If one server that holds a block of the range gives a rate of 0, no sequence is found, whatever the
  -- other servers are.
  pub zero_rate_raises :
      (by_priority : List RemoteSpanInfo) (containing : List (List RemoteSpanInfo))
      → start_index < end_index
      → HasZeroRate start_index end_index by_priority
      → make_sequence_with_min_latency delays find_path rtts needed start_index end_index
          by_priority containing
        ≡ none
  unfolding make_sequence_with_min_latency
  zero_rate_raises by_priority containing less h =
      let apart : (start_index == end_index) ≡ false = ground arith in
      let blocks = blocks_from start_index (end_index - start_index) in
      rw (apart, through-none by_priority h)
        (elim (Bool-cases (all_served containing blocks)) [
          | inl served ↦ rw served refl
          | inr missing ↦ rw missing refl
        ])
