-- ===== src/Client/Routing/Latency/Route.antt =====
-- The spans made of a path follow each other, and each server holds the blocks of its span.
use mathlib.Core.Path.{subst}
use subnet_llm_template.Prelude.{
  ◌≡◌, refl, sym, ap, ◌∙◌, ◌≤◌, ◌<◌, ◌⊎◌, inl, inr, arith, Bool-cases, ℕ, true, false, Option, some,
  List, [], ◌∷◌, ◌==◌, ltb,
}
use subnet_llm_template.Prelude.Int.{pos, ltb_ℤ}
use subnet_llm_template.Prelude.Dict.{Dict, lookup}
use subnet_llm_template.Swarm.Data.{ServerInfo, RemoteSpanInfo, length as span_length}
use subnet_llm_template.Client.Routing.Latency.Graph.{
  Delays, Node, start_node, end_node, before, Edge,
}
use subnet_llm_template.Prelude.Int.{◌-ℤ◌, -ℤ_parts}
use subnet_llm_template.Client.Routing.Latency.Edges.{Serves, IsLink}
use subnet_llm_template.Client.Routing.Latency.{new_span, prepend_span, visit, drop_empty}

module _ {delays : Delays} where
  abbrev pub HasEdge : List (Edge delays) → Node → Node → Type 0
  HasEdge [] a b = ⊥
  HasEdge (e ∷ edges) a b = ((e.from ≡ a) × (e.to ≡ b)) ⊎ HasEdge edges a b

  -- From `a` to the end along edges.
  abbrev pub IsPath : List (Edge delays) → Node → List Node → Type 0
  IsPath graph a [] = a ≡ end_node
  IsPath graph a (b ∷ nodes) = HasEdge graph a b × IsPath graph b nodes

-- What is found is a path from the start to the end.
abbrev pub FindsPaths : (delays : Delays) → (List (Edge delays) → Option (List Node)) → Type 0
FindsPaths delays find_path =
    (graph : List (Edge delays)) (nodes : List Node)
    → find_path graph ≡ some nodes
    → (rest : List Node) × (nodes ≡ start_node ∷ rest) × IsPath graph start_node rest

module _ (by_priority : List RemoteSpanInfo) where
  abbrev Covers : RemoteSpanInfo → ℕ → Type 0
  Covers s n = (block : ℕ) → s.start ≤ block → block < n → Serves by_priority s.peer_id block

  -- Spans that follow each other from `a` to `c`, each one held by its server; some may be empty.
  abbrev pub Follows : ℕ → ℕ → List RemoteSpanInfo → Type 0
  Follows a c [] = a ≡ c
  Follows a c (s ∷ spans) =
      (s.start ≡ a) × (n : ℕ) × (s.end ≡ pos n) × (a ≤ n) × Covers s n × Follows n c spans

  -- The same, none of them empty.
  abbrev pub IsSequence : ℕ → ℕ → List RemoteSpanInfo → Type 0
  IsSequence a c [] = a ≡ c
  IsSequence a c (s ∷ spans) =
      (s.start ≡ a) × (n : ℕ) × (s.end ≡ pos n) × (a < n) × Covers s n × IsSequence n c spans

abbrev pub LastPeer : ℕ → List RemoteSpanInfo → Type 0
LastPeer p [] = ⊥
LastPeer p (s ∷ []) = s.peer_id ≡ p
LastPeer p (s ∷ t ∷ spans) = LastPeer p (t ∷ spans)

LastPeer-cons :
    (p : ℕ) (s : RemoteSpanInfo) (spans : List RemoteSpanInfo)
    → LastPeer p spans
    → LastPeer p (s ∷ spans)
LastPeer-cons p s [] h = absurd h
LastPeer-cons p s (t ∷ spans) h = h

span_length-cases :
    (s : RemoteSpanInfo) (a n : ℕ)
    → s.start ≡ a
    → s.end ≡ pos n
    → a ≤ n
    → ((ltb_ℤ (pos 0) (span_length s) ≡ true) × (a < n))
      ⊎ ((ltb_ℤ (pos 0) (span_length s) ≡ false) × (a ≡ n))
unfolding span_length
span_length-cases s a n st e le =
    rw (e, st)
      (elim (Bool-cases (ltb_ℤ (pos 0) (pos n -ℤ pos a))) [
        | inl more ↦ inl (more, ground (arith, -ℤ_parts (pos n) (pos a)))
        | inr none_left ↦ inr (none_left, ground (arith, -ℤ_parts (pos n) (pos a)))
      ])

module _ (by_priority : List RemoteSpanInfo) where
  pub drop_empty-IsSequence :
      (a c : ℕ) (spans : List RemoteSpanInfo)
      → Follows by_priority a c spans
      → IsSequence by_priority a c (drop_empty spans)
  drop_empty-IsSequence a c [] e = e
  drop_empty-IsSequence a c (s ∷ spans) (st, n, e, le, covers, rest) =
      elim (span_length-cases s a n st e le) [
        | inl (more, less) ↦ rw more (st, n, e, less, covers, drop_empty-IsSequence n c spans rest)
        | inr (over, same) ↦ rw over (
            subst (λ k. IsSequence by_priority k c (drop_empty spans)) (sym same)
              (drop_empty-IsSequence n c spans rest))
      ]

module _ (infos : Dict ServerInfo) (by_priority : List RemoteSpanInfo)
    (start_index end_index : ℕ) where
  abbrev pub Link : Node → Node → Type 0
  Link a b = IsLink infos by_priority start_index end_index a b

  abbrev Visited : ℕ → ℕ → ℕ → Option (List RemoteSpanInfo) → Type 0
  Visited a q c found =
      (next : List RemoteSpanInfo) × (found ≡ some next)
      × Follows by_priority a c next
      × LastPeer q next

  further :
      (a b p q c : ℕ) (s : RemoteSpanInfo)
      → s.start ≡ a
      → s.peer_id ≡ p
      → a ≤ b
      → Covers by_priority s b
      → Link (before p b) (before q c)
      → (a ≤ c) × Covers by_priority s c
  further a b p q c s st peer le covers (inl (same, known)) =
      (omega arith, λ j low high. covers j low (omega arith))
  further a b p q c s st peer le covers (inr (same_peer, next, serves)) = (
    omega arith,
    λ j low high. elim (Bool-cases (ltb j b)) [
      | inl below ↦ covers j low (ground arith)
      | inr last ↦
          let eq : j ≡ b = ground arith in
          subst (λ k. Serves by_priority s.peer_id k) (sym eq)
            (subst (λ k. Serves by_priority k b) (sym peer) serves)
    ],
  )

  changes :
      (a b p q c : ℕ) (s : RemoteSpanInfo)
      → s.start ≡ a
      → s.peer_id ≡ p
      → s.end ≡ pos b
      → a ≤ b
      → Covers by_priority s b
      → (s.peer_id == q) ≡ false
      → Link (before p b) (before q c)
      → Visited a q c (prepend_span s (new_span q c (lookup q infos)))
  changes a b p q c s st peer e le covers other (inr (same_peer, next, serves)) =
      absurd (ground arith)
  changes a b p q c s st peer e le covers other (inl (same, (info, found))) =
      let new : RemoteSpanInfo = record {
        peer_id = q;
        start = c;
        end = pos c;
        server_info = info;
      } in
      rw found (
        s ∷ new ∷ [],
        refl,
        (
          st,
          b,
          e,
          le,
          covers,
          (same, c, refl, omega arith, λ j low high. absurd (omega arith), refl),
        ),
        refl,
      )

  pub visit-Visited :
      (a b p q c : ℕ) (spans : List RemoteSpanInfo)
      → Follows by_priority a b spans
      → LastPeer p spans
      → Link (before p b) (before q c)
      → Visited a q c (visit infos spans q c)
  unfolding visit
  visit-Visited a b p q c [] h last link = absurd last
  visit-Visited a b p q c (s ∷ []) (st, n, e, le, covers, over) last link =
      let at_b : s.end ≡ pos b = e ∙ ap pos over in
      let covers_b = subst (Covers by_priority s) over covers in
      let le_b : a ≤ b = omega arith in
      elim (Bool-cases (s.peer_id == q)) [
        | inl same ↦
            let (le_c, covers_c) = further a b p q c s st last le_b covers_b link in
            rw same (
              record s { end = pos c } ∷ [],
              refl,
              (st, c, refl, le_c, covers_c, refl),
              ground arith,
            )
        | inr other ↦ rw other (changes a b p q c s st last at_b le_b covers_b other link)
      ]
  visit-Visited a b p q c (s ∷ t ∷ spans) (st, n, e, le, covers, rest) last link =
      let (next, found, follows, last_q) = visit-Visited n b p q c (t ∷ spans) rest last link in
      rw found (s ∷ next, refl, (st, n, e, le, covers, follows), LastPeer-cons q s next last_q)
