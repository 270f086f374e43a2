-- ===== src/Client/Routing/Latency/Graph.antt =====
-- `_build_inference_graph` of src/subnet/client/routing/sequence_manager.py and what it calls. The start
-- of a sequence is never after its end here.
use subnet_llm_template.Prelude.{
  ℕ, ◌+◌, ◌-◌, ◌*◌, min, max, Bool, true, false, ◌&&◌, Option, none, some, List, [], ◌∷◌, ◌++◌,
  get_elem?, ◌==◌, if◌then◌else◌,
}
use subnet_llm_template.Prelude.Int.{ℤ, pos, pos_part, ◌*ℤ◌, leb_ℤ}
use subnet_llm_template.Prelude.Dict.{Dict, lookup, insert}
use subnet_llm_template.Swarm.Data.{ServerInfo, RemoteSpanInfo, length as span_length}
use subnet_llm_template.Swarm.Blocks.{blocks_from}

-- Delays are floats, of which only this is used.
pub record Delays : Type 1 where
  pub Delay : Type 0
  pub add : Delay → Delay → Delay
  pub least : Delay → Delay → Delay
  -- half of a round trip, and one over a rate
  pub half : ℕ → Delay
  pub inverse : ℕ → Delay
  pub overhead_delay : Delay
  pub alloc_delay : Delay
  pub default_delay : Delay
  pub max_delay : Delay
  pub default_inference_rps : ℕ

-- The nodes of the graph: "start", "end", and a peer before a block.
pub data Node : Type 0 where
  start_node end_node : Node
  before : ℕ → ℕ → Node

pub record Edge (delays : Delays) : Type 0 where
  pub from : Node
  pub to : Node
  weight : delays.Delay

abbrev or_nobody : Option (List RemoteSpanInfo) → List RemoteSpanInfo
or_nobody none = []
or_nobody (some spans) = spans

abbrev pub spans_at : List (List RemoteSpanInfo) → ℕ → List RemoteSpanInfo
spans_at containing block = or_nobody (get_elem? containing block)

abbrev is_served : List RemoteSpanInfo → Bool
is_served [] = false
is_served (_ ∷ _) = true

-- No block is missing.
abbrev pub all_served : List (List RemoteSpanInfo) → List ℕ → Bool
all_served containing [] = true
all_served containing (block ∷ blocks) =
    is_served (spans_at containing block) && all_served containing blocks

-- The dict comprehension, a later value taking the place of an earlier one.
abbrev pub add_infos : List RemoteSpanInfo → Dict ServerInfo → Dict ServerInfo
add_infos [] infos = infos
add_infos (s ∷ spans) infos = add_infos spans (insert s.peer_id s.server_info infos)

abbrev pub server_infos : List (List RemoteSpanInfo) → List ℕ → Dict ServerInfo → Dict ServerInfo
server_infos containing [] infos = infos
server_infos containing (block ∷ blocks) infos =
    server_infos containing blocks (add_infos (spans_at containing block) infos)

-- `_has_cache_for`
abbrev fits_cache : ℤ → Option ℕ → Option ℕ → Bool
fits_cache span_length none left = true
fits_cache span_length (some needed) none = true
fits_cache span_length (some needed) (some left) =
    leb_ℤ (pos (needed * 2) *ℤ span_length) (pos left)

abbrev has_cache_for : RemoteSpanInfo → Option ℕ → Bool
has_cache_for span needed = fits_cache (span_length span) needed span.server_info.cache_tokens_left

abbrev ping_of : Option (Dict ℕ) → ℕ → Option ℕ
ping_of none peer_id = none
ping_of (some pings) peer_id = lookup peer_id pings

abbrev pub is_some : List ℕ → Bool
is_some [] = false
is_some (_ ∷ _) = true

abbrev pub ends_here : ℕ → ℤ → Bool
ends_here block e = leb_ℤ e (pos block) && leb_ℤ (pos block) e

abbrev pub blocks_of : ℕ → ℕ → RemoteSpanInfo → List ℕ
blocks_of start_index end_index s =
    let first = max s.start start_index in
    blocks_from first (min (pos_part s.end) end_index - first)

module _ (delays : Delays) where
  abbrev rtt_to_delay : Option ℕ → delays.Delay
  rtt_to_delay none = delays.default_delay
  rtt_to_delay (some rtt) = delays.least (delays.half rtt) delays.max_delay

  abbrev delay_to : Option ℕ → RemoteSpanInfo → Option ℕ → delays.Delay
  delay_to rtt span needed =
      let delay = delays.add (rtt_to_delay rtt) delays.overhead_delay in
      if has_cache_for span needed then delay else delays.add delay delays.alloc_delay

  -- Client -> server network delays
  abbrev pub start_edges : Dict ℕ → Option ℕ → ℕ → List RemoteSpanInfo → List (Edge delays)
  start_edges rtts needed start_index [] = []
  start_edges rtts needed start_index (s ∷ spans) =
      record {
        from = start_node;
        to = before s.peer_id start_index;
        weight = delay_to (lookup s.peer_id rtts) s needed;
      }
      ∷ start_edges rtts needed start_index spans

  -- Server -> client network delays
  abbrev pub end_edges : Dict ℕ → ℕ → List RemoteSpanInfo → List (Edge delays)
  end_edges rtts end_index [] = []
  end_edges rtts end_index (s ∷ spans) =
      record {
        from = before s.peer_id end_index;
        to = end_node;
        weight = rtt_to_delay (lookup s.peer_id rtts);
      }
      ∷ end_edges rtts end_index spans

  -- Server -> server network delays
  abbrev pub hops_from : Option ℕ → ℕ → RemoteSpanInfo → List RemoteSpanInfo → List (Edge delays)
  hops_from needed block s [] = []
  hops_from needed block s (next ∷ spans) =
      record {
        from = before s.peer_id block;
        to = before next.peer_id block;
        weight = delay_to (ping_of s.server_info.next_pings next.peer_id) next needed;
      }
      ∷ hops_from needed block s spans

  abbrev pub hops_between :
      Option ℕ → ℕ → List RemoteSpanInfo → List RemoteSpanInfo → List (Edge delays)
  hops_between needed block [] nexts = []
  hops_between needed block (s ∷ spans) nexts =
      (if ends_here block s.end then hops_from needed block s nexts else [])
      ++ hops_between needed block spans nexts

  abbrev pub hops : Option ℕ → List (List RemoteSpanInfo) → List ℕ → List (Edge delays)
  hops needed containing [] = []
  hops needed containing (block ∷ blocks) =
      hops_between needed block (spans_at containing (block - 1)) (spans_at containing block)
      ++ hops needed containing blocks

  abbrev pub rps_of : Option ℕ → ℕ
  rps_of none = delays.default_inference_rps
  rps_of (some rps) = rps

  -- Compute delays; dividing by a rate of 0 raises.
  abbrev pub through_span : ℕ → ℕ → List ℕ → List (Edge delays)
  through_span peer_id rps [] = []
  through_span peer_id rps (block ∷ blocks) =
      record {
        from = before peer_id block;
        to = before peer_id (block + 1);
        weight = delays.inverse rps;
      }
      ∷ through_span peer_id rps blocks

  abbrev prepend_all :
      List (Edge delays) → Option (List (Edge delays)) → Option (List (Edge delays))
  prepend_all edges none = none
  prepend_all edges (some rest) = some (edges ++ rest)

  abbrev pub through : ℕ → ℕ → List RemoteSpanInfo → Option (List (Edge delays))
  through start_index end_index [] = some []
  through start_index end_index (s ∷ spans) =
      let blocks = blocks_of start_index end_index s in
      let rps = rps_of s.server_info.inference_rps in
      let rest = through start_index end_index spans in
      if rps == 0 && is_some blocks
      then none
      else prepend_all (through_span s.peer_id rps blocks) rest

  -- The rest of `_build_inference_graph`, once no block is missing.
  abbrev pub build_inference_graph :
      Dict ℕ
      → Option ℕ
      → ℕ
      → ℕ
      → List RemoteSpanInfo
      → List (List RemoteSpanInfo)
      → Option (List (Edge delays))
  build_inference_graph rtts needed start_index end_index by_priority containing =
      prepend_all
        (start_edges rtts needed start_index (spans_at containing start_index)
          ++ end_edges rtts end_index (spans_at containing (end_index - 1))
          ++ hops needed containing (blocks_from (start_index + 1) (end_index - (start_index + 1))))
        (through start_index end_index by_priority)
