-- ===== src/Swarm/Spans.antt =====
-- `compute_spans` of src/subnet/utils/dht.py: the range of blocks that each peer serves.
pub mod Bounds
pub mod States
pub mod Coverage
use subnet_llm_template.Prelude.{
  ℕ, ◌+◌, ◌-◌, Bool, true, false, Option, none, some, List, [], ◌∷◌, ltb, ◌==◌, if◌then◌else◌,
  length,
}
use subnet_llm_template.Prelude.Int.{ℤ, pos, sub_ℕ, max_ℤ, min_ℤ}
use subnet_llm_template.Prelude.Dict.{Dict, lookup, insert}
use subnet_llm_template.Swarm.Data.{
  ServerState, value, ServerInfo, RemoteModuleInfo, RemoteSpanInfo, state,
}

-- `sorted(servers.items())`: the keys are distinct, so only they are compared.
abbrev pub insert_item : ℕ × ServerInfo → Dict ServerInfo → Dict ServerInfo
insert_item e [] = e ∷ []
insert_item e (f ∷ d) = if ltb e.0 f.0 then e ∷ f ∷ d else f ∷ insert_item e d

abbrev pub sorted_items : Dict ServerInfo → Dict ServerInfo
sorted_items [] = []
sorted_items (e ∷ d) = insert_item e (sorted_items d)

-- The end and start that a server declares, if it declares both, else the block at hand.
abbrev declared_start : ℕ → ℕ → ServerInfo → ℕ
declared_start offset block_idx info = elim info.start_block [
  | none ↦ block_idx
  | some s ↦ elim info.end_block [ none ↦ block_idx | some _ ↦ s - offset ]
]

abbrev declared_end : ℕ → ℕ → ℕ → ServerInfo → ℤ
declared_end offset num_blocks block_idx info = elim info.start_block [
  | none ↦ pos (block_idx + 1)
  | some _ ↦ elim info.end_block [
    | none ↦ pos (block_idx + 1)
    | some e ↦ min_ℤ (sub_ℕ e offset) (pos num_blocks)
  ]
]

module _ (offset num_blocks : ℕ) (min_state : ServerState) where
  abbrev pub new_span : ℕ → ℕ → ServerInfo → RemoteSpanInfo
  new_span block_idx peer_id info = record {
    peer_id = peer_id;
    start = declared_start offset block_idx info;
    end = declared_end offset num_blocks block_idx info;
    server_info = info;
  }

  -- What a peer that is listed at a block does to the span that it has so far.
  abbrev pub update_span :
      ℕ → ℕ → ServerInfo → Option RemoteSpanInfo → Dict RemoteSpanInfo → Dict RemoteSpanInfo
  update_span block_idx peer_id info none spans =
      insert peer_id (new_span block_idx peer_id info) spans
  update_span block_idx peer_id info (some span) spans =
      if ltb (value (state span)) (value info.state)
      then insert peer_id (new_span block_idx peer_id info) spans
      else if value (state span) == value info.state
      then insert peer_id (record span { end = max_ℤ span.end (pos (block_idx + 1)) }) spans
      else spans

  abbrev pub visit_server : ℕ → ℕ × ServerInfo → Dict RemoteSpanInfo → Dict RemoteSpanInfo
  visit_server block_idx (peer_id, info) spans =
      if ltb (value info.state) (value min_state)
      then spans
      else update_span block_idx peer_id info (lookup peer_id spans) spans

  unfoldable pub visit_servers : ℕ → Dict ServerInfo → Dict RemoteSpanInfo → Dict RemoteSpanInfo
  visit_servers block_idx [] spans = spans
  visit_servers block_idx (e ∷ servers) spans =
      visit_servers block_idx servers (visit_server block_idx e spans)

  unfoldable pub visit_modules :
      ℕ → List RemoteModuleInfo → Dict RemoteSpanInfo → Dict RemoteSpanInfo
  unfolding visit_servers
  visit_modules block_idx [] spans = spans
  visit_modules block_idx (m ∷ infos) spans =
      visit_modules (block_idx + 1) infos (visit_servers block_idx (sorted_items m.servers) spans)

abbrev pub block_offset : List RemoteModuleInfo → ℕ
block_offset [] = 0
block_offset (m ∷ _) = m.uid.index

unfoldable pub compute_spans : List RemoteModuleInfo → ServerState → Dict RemoteSpanInfo
unfolding visit_modules
compute_spans infos min_state =
    visit_modules (block_offset infos) (length infos) min_state 0 infos []
