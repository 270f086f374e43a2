-- ===== src/Swarm/Spans/States.antt =====
-- `compute_spans` peer by peer, against a reading of the peer's own records.
use subnet_llm_template.Prelude.{
  ℕ, ◌+◌, ◌≡◌, refl, ◌⊎◌, ◌∙◌, Bool, true, false, Option, none, some, List, [], ◌∷◌, arith, length,
  ltb, Bool-cases, inl, inr, ◌==◌, if◌then◌else◌,
}
use subnet_llm_template.Prelude.Int.{pos, max_ℤ}
use subnet_llm_template.Prelude.Dict.{Dict, IsDict, lookup, lookup-insert}
use subnet_llm_template.Swarm.Data.{
  ServerState, value, ServerInfo, RemoteModuleInfo, RemoteSpanInfo, state,
}
use subnet_llm_template.Swarm.Spans.{
  new_span, update_span, visit_server, visit_servers, visit_modules, compute_spans, insert_item,
  sorted_items, block_offset,
}

-- The keys of a module's dict of servers are distinct.
abbrev pub AreDicts : List RemoteModuleInfo → Type 0
AreDicts [] = Unit
AreDicts (m ∷ infos) = IsDict m.servers × AreDicts infos

lookup-insert_item :
    (p : ℕ) (e : ℕ × ServerInfo) (d : Dict ServerInfo)
    → lookup e.0 d ≡ none
    → lookup p (insert_item e d) ≡ (if p == e.0 then some e.1 else lookup p d)
lookup-insert_item p e [] h = ground arith
lookup-insert_item p e (f ∷ d) h = ground (arith, lookup-insert_item p e d)

lookup-sorted_items :
    (p : ℕ) (d : Dict ServerInfo) → IsDict d → lookup p (sorted_items d) ≡ lookup p d
lookup-sorted_items p [] h = refl
lookup-sorted_items p (e ∷ d) h = ground (
  arith,
  lookup-insert_item p e (sorted_items d),
  lookup-sorted_items e.0 d h.1,
  lookup-sorted_items p d h.1,
)

IsDict-insert_item :
    (e : ℕ × ServerInfo) (d : Dict ServerInfo)
    → lookup e.0 d ≡ none
    → IsDict d
    → IsDict (insert_item e d)
IsDict-insert_item e [] n h = (refl, tt)
IsDict-insert_item e (f ∷ d) n h =
    ground (arith, IsDict-insert_item e d, lookup-insert_item f.0 e d)

IsDict-sorted_items : (d : Dict ServerInfo) → IsDict d → IsDict (sorted_items d)
IsDict-sorted_items [] h = tt
IsDict-sorted_items (e ∷ d) h =
    IsDict-insert_item e (sorted_items d) (lookup-sorted_items e.0 d h.1 ∙ h.0)
      (IsDict-sorted_items d h.1)

module _ (offset n : ℕ) (ms : ServerState) (p : ℕ) where
  -- What one record of a peer does to the peer's span.
  abbrev pub next_span : ℕ → ServerInfo → Option RemoteSpanInfo → Option RemoteSpanInfo
  next_span idx info none =
      if ltb (value info.state) (value ms) then none else some (new_span offset n ms idx p info)
  next_span idx info (some span) =
      if ltb (value info.state) (value ms)
      then some span
      else if ltb (value (state span)) (value info.state)
      then some (new_span offset n ms idx p info)
      else if value (state span) == value info.state
      then some (record span { end = max_ℤ span.end (pos (idx + 1)) })
      else some span

  abbrev pub after_module : ℕ → Option ServerInfo → Option RemoteSpanInfo → Option RemoteSpanInfo
  after_module idx none old = old
  after_module idx (some info) old = next_span idx info old

  -- The span of one peer from that peer's records alone.
  unfoldable pub peer_span :
      ℕ → List RemoteModuleInfo → Option RemoteSpanInfo → Option RemoteSpanInfo
  peer_span idx [] old = old
  peer_span idx (m ∷ infos) old =
      peer_span (idx + 1) infos (after_module idx (lookup p m.servers) old)

  lookup-update_span :
      (idx k : ℕ) (info : ServerInfo) (old : Option RemoteSpanInfo) (spans : Dict RemoteSpanInfo)
      → lookup k spans ≡ old
      → ltb (value info.state) (value ms) ≡ false
      → lookup p (update_span offset n ms idx k info old spans)
        ≡ (if p == k then next_span idx info old else lookup p spans)
  lookup-update_span idx k info none spans e kept =
      rw kept (ground (arith, lookup-insert p k (new_span offset n ms idx k info) spans))
  lookup-update_span idx k info (some span) spans e kept = rw kept (
      ground (
        arith,
        lookup-insert p k (new_span offset n ms idx k info) spans,
        lookup-insert p k (record span { end = max_ℤ span.end (pos (idx + 1)) }) spans,
      ))

  lookup-visit_server :
      (idx : ℕ) (e : ℕ × ServerInfo) (spans : Dict RemoteSpanInfo)
      → lookup p (visit_server offset n ms idx e spans)
        ≡ (if p == e.0 then next_span idx e.1 (lookup p spans) else lookup p spans)
  lookup-visit_server idx (k, info) spans = elim (Bool-cases (ltb (value info.state) (value ms))) [
    | inl skipped ↦ rw skipped (skip (p == k) (lookup p spans) skipped)
    | inr kept ↦ rw kept (
        lookup-update_span idx k info (lookup k spans) spans refl kept ∙ same (Bool-cases (p == k)))
  ]
    where
      skip :
          (b : Bool) (old : Option RemoteSpanInfo)
          → ltb (value info.state) (value ms) ≡ true
          → old ≡ (if b then next_span idx info old else old)
      skip true none h = rw h
      skip true (some span) h = rw h
      skip false old h = refl

      same :
          ((p == k) ≡ true) ⊎ ((p == k) ≡ false)
          → (if p == k then next_span idx info (lookup k spans) else lookup p spans)
            ≡ (if p == k then next_span idx info (lookup p spans) else lookup p spans)
      same (inl h) = let e : p ≡ k = ground arith in rw e
      same (inr h) = rw h

  lookup-visit_servers :
      (idx : ℕ) (servers : Dict ServerInfo) (spans : Dict RemoteSpanInfo)
      → IsDict servers
      → lookup p (visit_servers offset n ms idx servers spans)
        ≡ after_module idx (lookup p servers) (lookup p spans)
  unfolding visit_servers
  lookup-visit_servers idx [] spans h = refl
  lookup-visit_servers idx (e ∷ servers) spans h =
      lookup-visit_servers idx servers (visit_server offset n ms idx e spans) h.1
      ∙ here (Bool-cases (p == e.0))
    where
      here :
          ((p == e.0) ≡ true) ⊎ ((p == e.0) ≡ false)
          → after_module idx (lookup p servers) (lookup p (visit_server offset n ms idx e spans))
            ≡ after_module idx (lookup p (e ∷ servers)) (lookup p spans)
      here (inl same) =
          let q : p ≡ e.0 = ground arith in
          let none_left : lookup p servers ≡ none = rw q h.0 in
          rw (none_left, lookup-visit_server idx e spans, same)
      here (inr other) = rw (lookup-visit_server idx e spans, other)

  lookup-visit_modules :
      (idx : ℕ) (infos : List RemoteModuleInfo) (spans : Dict RemoteSpanInfo)
      → AreDicts infos
      → lookup p (visit_modules offset n ms idx infos spans) ≡ peer_span idx infos (lookup p spans)
  unfolding visit_modules peer_span
  lookup-visit_modules idx [] spans h = refl
  lookup-visit_modules idx (m ∷ infos) spans h =
      lookup-visit_modules (idx + 1) infos _ h.1
      ∙ rw (
        lookup-visit_servers idx (sorted_items m.servers) spans (IsDict-sorted_items m.servers h.0),
        lookup-sorted_items p m.servers h.0,
      )

-- The span of a peer is the one that its own records give, read block by block: no other peer and
-- no order within the dicts of servers has a part in it, where the keys of each dict are distinct.
pub lookup-compute_spans :
    (infos : List RemoteModuleInfo) (min_state : ServerState) (p : ℕ)
    → AreDicts infos
    → lookup p (compute_spans infos min_state)
      ≡ peer_span (block_offset infos) (length infos) min_state p 0 infos none
unfolding compute_spans
lookup-compute_spans infos ms p h =
    lookup-visit_modules (block_offset infos) (length infos) ms p 0 infos [] h
