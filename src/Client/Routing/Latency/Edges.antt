-- ===== src/Client/Routing/Latency/Edges.antt =====
-- Which nodes the edges of the graph join.
use subnet_llm_template.Prelude.{
  ◌≡◌, refl, ◌≤◌, ◌<◌, ◌⊎◌, inl, inr, arith, Bool-cases, ℕ, zero, suc, ◌+◌, ◌-◌, min, max, true,
  false, Option, some, List, [], ◌∷◌, ◌++◌, ◌==◌, if◌then◌else◌,
}
use subnet_llm_template.Prelude.Int.{pos_part}
use subnet_llm_template.Prelude.Dict.{Dict}
use subnet_llm_template.Swarm.Data.{ServerInfo, RemoteSpanInfo}
use subnet_llm_template.Swarm.Blocks.{blocks_from}
use subnet_llm_template.Client.Routing.{holds}
use subnet_llm_template.Client.Routing.Latency.Graph.{
  Delays, Node, start_node, end_node, before, Edge, spans_at, start_edges, end_edges, hops_from,
  hops_between, ends_here, hops, rps_of, through_span, through, build_inference_graph,
}
use subnet_llm_template.Client.Routing.Latency.Records.{Known, AllKnown}

-- A span of the list is of the peer and holds the block.
abbrev pub Serves : List RemoteSpanInfo → ℕ → ℕ → Type 0
Serves [] peer_id block = ⊥
Serves (s ∷ spans) peer_id block =
    ((s.peer_id ≡ peer_id) × (holds block s ≡ true)) ⊎ Serves spans peer_id block

-- No server gives a rate of 0.
abbrev pub AllGiveRates : Delays → List RemoteSpanInfo → Type 0
AllGiveRates delays [] = Unit
AllGiveRates delays (s ∷ spans) =
    (0 < rps_of delays s.server_info.inference_rps) × AllGiveRates delays spans

module _ (infos : Dict ServerInfo) (by_priority : List RemoteSpanInfo)
    (start_index end_index : ℕ) where
  -- An edge begins the sequence at a known server, ends it, changes to a known server, or passes one
  -- block of a server.
  abbrev pub IsLink : Node → Node → Type 0
  IsLink start_node (before q c) = (c ≡ start_index) × Known infos q
  IsLink start_node start_node = ⊥
  IsLink start_node end_node = ⊥
  IsLink end_node _ = ⊥
  IsLink (before p b) start_node = ⊥
  IsLink (before p b) end_node = b ≡ end_index
  IsLink (before p b) (before q c) =
      ((c ≡ b) × Known infos q) ⊎ ((q ≡ p) × (c ≡ b + 1) × Serves by_priority p b)

in_span : (s : RemoteSpanInfo) (b : ℕ) → s.start ≤ b → b < pos_part s.end → holds b s ≡ true
in_span s b low high = ground arith

module _ (delays : Delays) (infos : Dict ServerInfo) (by_priority : List RemoteSpanInfo)
    (start_index end_index : ℕ) where
  abbrev pub AreLinks : List (Edge delays) → Type 0
  AreLinks [] = Unit
  AreLinks (e ∷ edges) = IsLink infos by_priority start_index end_index e.from e.to × AreLinks edges

  AreLinks-append : (xs ys : List (Edge delays)) → AreLinks xs → AreLinks ys → AreLinks (xs ++ ys)
  AreLinks-append [] ys h k = k
  AreLinks-append (x ∷ xs) ys (link, h) k = (link, AreLinks-append xs ys h k)

  start_edges-AreLinks :
      (rtts : Dict ℕ) (needed : Option ℕ) (spans : List RemoteSpanInfo)
      → AllKnown infos spans
      → AreLinks (start_edges delays rtts needed start_index spans)
  start_edges-AreLinks rtts needed [] h = tt
  start_edges-AreLinks rtts needed (s ∷ spans) (known, h) =
      ((refl, known), start_edges-AreLinks rtts needed spans h)

  end_edges-AreLinks :
      (rtts : Dict ℕ) (spans : List RemoteSpanInfo)
      → AreLinks (end_edges delays rtts end_index spans)
  end_edges-AreLinks rtts [] = tt
  end_edges-AreLinks rtts (s ∷ spans) = (refl, end_edges-AreLinks rtts spans)

  hops_from-AreLinks :
      (needed : Option ℕ) (block : ℕ) (s : RemoteSpanInfo) (spans : List RemoteSpanInfo)
      → AllKnown infos spans
      → AreLinks (hops_from delays needed block s spans)
  hops_from-AreLinks needed block s [] h = tt
  hops_from-AreLinks needed block s (next ∷ spans) (known, h) =
      (inl (refl, known), hops_from-AreLinks needed block s spans h)

  hops_between-AreLinks :
      (needed : Option ℕ) (block : ℕ) (spans nexts : List RemoteSpanInfo)
      → AllKnown infos nexts
      → AreLinks (hops_between delays needed block spans nexts)
  hops_between-AreLinks needed block [] nexts h = tt
  hops_between-AreLinks needed block (s ∷ spans) nexts h =
      AreLinks-append (if ends_here block s.end then hops_from delays needed block s nexts else [])
        (hops_between delays needed block spans nexts)
        (elim (Bool-cases (ends_here block s.end)) [
          | inl here ↦ rw here (hops_from-AreLinks needed block s nexts h)
          | inr there ↦ rw there tt
        ])
        (hops_between-AreLinks needed block spans nexts h)

  hops-AreLinks :
      (needed : Option ℕ) (containing : List (List RemoteSpanInfo)) (first n : ℕ)
      → start_index ≤ first
      → first + n ≤ end_index
      → ((b : ℕ) → start_index ≤ b → b < end_index → AllKnown infos (spans_at containing b))
      → AreLinks (hops delays needed containing (blocks_from first n))
  hops-AreLinks needed containing first zero low high known = tt
  hops-AreLinks needed containing first (suc n) low high known =
      AreLinks-append
        (hops_between delays needed first (spans_at containing (first - 1))
          (spans_at containing first))
        (hops delays needed containing (blocks_from (first + 1) n))
        (hops_between-AreLinks needed first (spans_at containing (first - 1))
          (spans_at containing first) (known first low (omega arith)))
        (hops-AreLinks needed containing (first + 1) n (omega arith) (omega arith) known)

  through_span-AreLinks :
      (peer_id rps first n : ℕ)
      → ((b : ℕ) → first ≤ b → b < first + n → Serves by_priority peer_id b)
      → AreLinks (through_span delays peer_id rps (blocks_from first n))
  through_span-AreLinks peer_id rps first zero serves = tt
  through_span-AreLinks peer_id rps first (suc n) serves = (
    inr (refl, refl, serves first (omega arith) (omega arith)),
    through_span-AreLinks peer_id rps (first + 1) n
        λ b low high. serves b (omega arith) (omega arith),
  )

  -- The edges through the spans of a list, where no server gives a rate of 0.
  through-AreLinks :
      (spans : List RemoteSpanInfo)
      → ((p b : ℕ) → Serves spans p b → Serves by_priority p b)
      → AllGiveRates delays spans
      → (edges : List (Edge delays)) × (through delays start_index end_index spans ≡ some edges)
        × AreLinks edges
  through-AreLinks [] within rates = ([], refl, tt)
  through-AreLinks (s ∷ spans) within (rate, rates) =
      let first = max s.start start_index in
      let n = min (pos_part s.end) end_index - first in
      let rps = rps_of delays s.server_info.inference_rps in
      let own = through_span delays s.peer_id rps (blocks_from first n) in
      let (rest, e, links) = through-AreLinks spans (λ p b h. within p b (inr h)) rates in
      let not_zero : (rps == 0) ≡ false = ground arith in
      (
        own ++ rest,
        rw (not_zero, e) refl,
        AreLinks-append own rest
            (through_span-AreLinks s.peer_id rps first n λ b low high.
              within s.peer_id b (inl (refl, in_span s b (omega arith) (omega arith))))
            links,
      )

  pub build_inference_graph-AreLinks :
      (rtts : Dict ℕ) (needed : Option ℕ) (containing : List (List RemoteSpanInfo))
      → start_index < end_index
      → AllGiveRates delays by_priority
      → ((b : ℕ) → start_index ≤ b → b < end_index → AllKnown infos (spans_at containing b))
      → (edges : List (Edge delays)) × (build_inference_graph delays rtts needed start_index
            end_index by_priority containing
          ≡ some edges)
        × AreLinks edges
  build_inference_graph-AreLinks rtts needed containing less rates known =
      let starts = start_edges delays rtts needed start_index (spans_at containing start_index) in
      let ends = end_edges delays rtts end_index (spans_at containing (end_index - 1)) in
      let n = end_index - (start_index + 1) in
      let changes = hops delays needed containing (blocks_from (start_index + 1) n) in
      let (passes, e, links) = through-AreLinks by_priority (λ p b h. h) rates in
      (
        (starts ++ ends ++ changes) ++ passes,
        rw e refl,
        AreLinks-append (starts ++ ends ++ changes) passes
            (AreLinks-append (starts ++ ends) changes
              (AreLinks-append starts ends
                (start_edges-AreLinks rtts needed (spans_at containing start_index)
                  (known start_index (omega arith) less))
                (end_edges-AreLinks rtts (spans_at containing (end_index - 1))))
              (hops-AreLinks needed containing (start_index + 1) n (omega arith) (omega arith)
                known))
            links,
      )
