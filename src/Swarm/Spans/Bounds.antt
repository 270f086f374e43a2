-- ===== src/Swarm/Spans/Bounds.antt =====
-- `compute_spans`: what holds of every span that it returns.
use subnet_llm_template.Prelude.{
  ℕ, ◌+◌, ◌≤◌, ◌<◌, ◌≡◌, refl, Option, none, some, List, [], ◌∷◌, arith, length, ltb, Bool-cases,
  inl, inr, ◌==◌, ltb-false,
}
use subnet_llm_template.Prelude.Int.{pos, ◌≤ℤ◌, max_ℤ}
use subnet_llm_template.Prelude.Dict.{Dict, lookup, insert}
use subnet_llm_template.Swarm.Data.{
  ServerState, value, ServerInfo, RemoteModuleInfo, RemoteSpanInfo, state,
}
use subnet_llm_template.Swarm.Spans.{
  new_span, update_span, visit_server, visit_servers, visit_modules, compute_spans, sorted_items,
  block_offset,
}

-- A span that is fit to be used under the key `peer_id`.
pub record IsSpan (num_blocks : ℕ) (min_state : ServerState) (peer_id : ℕ) (span : RemoteSpanInfo)
    : Type 0 where
  pub owned : span.peer_id ≡ peer_id
  pub active : value min_state ≤ value (state span)
  pub within : span.end ≤ℤ pos num_blocks

abbrev pub AllSpans : ℕ → ServerState → Dict RemoteSpanInfo → Type 0
AllSpans num_blocks min_state [] = Unit
AllSpans num_blocks min_state ((k, span) ∷ spans) =
    IsSpan num_blocks min_state k span × AllSpans num_blocks min_state spans

module _ (n : ℕ) (ms : ServerState) where
  AllSpans-insert :
      (k : ℕ) (span : RemoteSpanInfo) (spans : Dict RemoteSpanInfo)
      → IsSpan n ms k span
      → AllSpans n ms spans
      → AllSpans n ms (insert k span spans)
  AllSpans-insert k span [] h hs = (h, tt)
  AllSpans-insert k span (e ∷ spans) h hs = ground (arith, AllSpans-insert k span spans h hs.1)

  AllSpans-lookup :
      (k : ℕ) (spans : Dict RemoteSpanInfo) {span : RemoteSpanInfo}
      → AllSpans n ms spans
      → lookup k spans ≡ some span
      → IsSpan n ms k span
  AllSpans-lookup k [] {span} hs e = cc
  AllSpans-lookup k (x ∷ spans) {span} hs e =
      ground (arith, AllSpans-lookup k spans {span = span} hs.1)

  new_span-IsSpan :
      (offset idx k : ℕ) (info : ServerInfo)
      → idx < n
      → value ms ≤ value info.state
      → IsSpan n ms k (new_span offset n ms idx k info)
  new_span-IsSpan offset idx k info h a = record { owned = refl; active = a; within = ground arith }

  module _ (offset idx : ℕ) (inside : idx < n) where
    update_span-AllSpans :
        (k : ℕ) (info : ServerInfo) (old : Option RemoteSpanInfo) (spans : Dict RemoteSpanInfo)
        → value ms ≤ value info.state
        → lookup k spans ≡ old
        → AllSpans n ms spans
        → AllSpans n ms (update_span offset n ms idx k info old spans)
    update_span-AllSpans k info none spans a e hs =
        AllSpans-insert k _ spans (new_span-IsSpan offset idx k info inside a) hs
    update_span-AllSpans k info (some span) spans a e hs =
        elim (Bool-cases (ltb (value (state span)) (value info.state))) [
          | inl better ↦
              rw better (AllSpans-insert k _ spans (new_span-IsSpan offset idx k info inside a) hs)
          | inr worse ↦ rw worse (elim (Bool-cases (value (state span) == value info.state)) [
            | inl same ↦ rw same (AllSpans-insert k _ spans longer hs)
            | inr other ↦ rw other hs
          ])
        ]
      where
        was : IsSpan n ms k span
        was = AllSpans-lookup k spans hs e

        longer : IsSpan n ms k (record span { end = max_ℤ span.end (pos (idx + 1)) })
        longer = record { owned = was.owned; active = was.active; within = ground (arith, was) }

    visit_server-AllSpans :
        (e : ℕ × ServerInfo) (spans : Dict RemoteSpanInfo)
        → AllSpans n ms spans
        → AllSpans n ms (visit_server offset n ms idx e spans)
    visit_server-AllSpans (k, info) spans hs =
        elim (Bool-cases (ltb (value info.state) (value ms))) [
          | inl skipped ↦ rw skipped hs
          | inr kept ↦
              rw kept
                (update_span-AllSpans k info (lookup k spans) spans (ltb-false _ _ kept) refl hs)
        ]

    visit_servers-AllSpans :
        (servers : Dict ServerInfo) (spans : Dict RemoteSpanInfo)
        → AllSpans n ms spans
        → AllSpans n ms (visit_servers offset n ms idx servers spans)
    unfolding visit_servers
    visit_servers-AllSpans [] spans hs = hs
    visit_servers-AllSpans (e ∷ servers) spans hs =
        visit_servers-AllSpans servers _ (visit_server-AllSpans e spans hs)

  visit_modules-AllSpans :
      (offset idx : ℕ) (infos : List RemoteModuleInfo) (spans : Dict RemoteSpanInfo)
      → idx + length infos ≤ n
      → AllSpans n ms spans
      → AllSpans n ms (visit_modules offset n ms idx infos spans)
  unfolding visit_modules
  visit_modules-AllSpans offset idx [] spans le hs = hs
  visit_modules-AllSpans offset idx (m ∷ infos) spans le hs =
      visit_modules-AllSpans offset (idx + 1) infos _ (omega arith)
        (visit_servers-AllSpans offset idx (omega arith) (sorted_items m.servers) spans hs)

-- Every span of `compute_spans` stands under its own peer, in a state that is at least the one
-- asked for, and ends within the blocks given.
pub compute_spans-AllSpans :
    (infos : List RemoteModuleInfo) (min_state : ServerState)
    → AllSpans (length infos) min_state (compute_spans infos min_state)
unfolding compute_spans
compute_spans-AllSpans infos ms =
    visit_modules-AllSpans (length infos) ms (block_offset infos) 0 infos [] (omega arith) tt
