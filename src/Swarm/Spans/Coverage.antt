-- ===== src/Swarm/Spans/Coverage.antt =====
-- `compute_spans` against the records: which peers have a span, in which state, over which blocks.
use subnet_llm_template.Prelude.{
  ℕ, zero, suc, ◌+◌, ◌≤◌, ◌<◌, ◌≡◌, refl, sym, ◌⊎◌, ◌∙◌, Option, none, some, List, [], ◌∷◌, arith,
  length, ltb, inr, if◌then◌else◌, get_elem?,
}
use subnet_llm_template.Prelude.Int.{pos, ◌≤ℤ◌}
use subnet_llm_template.Prelude.Dict.{lookup}
use subnet_llm_template.Swarm.Data.{
  ServerState, value, ServerInfo, RemoteModuleInfo, RemoteSpanInfo, state,
}
use subnet_llm_template.Swarm.Spans.{compute_spans, block_offset}
use subnet_llm_template.Swarm.Spans.States.{
  AreDicts, next_span, after_module, peer_span, lookup-compute_spans,
}

-- The best of the states that a peer announces, of those that are good enough.
abbrev pub better : ServerState → ServerState → Option ServerState → Option ServerState
better ms s none = if ltb (value s) (value ms) then none else some s
better ms s (some t) =
    if ltb (value s) (value ms) then some t else if ltb (value t) (value s) then some s else some t

abbrev pub announced : ServerState → Option ServerInfo → Option ServerState → Option ServerState
announced ms none best = best
announced ms (some info) best = better ms info.state best

pub best_state : ServerState → ℕ → List RemoteModuleInfo → Option ServerState → Option ServerState
best_state ms p [] best = best
best_state ms p (m ∷ infos) best = best_state ms p infos (announced ms (lookup p m.servers) best)

abbrev pub state_of : Option RemoteSpanInfo → Option ServerState
state_of none = none
state_of (some span) = some (state span)

module _ (offset n : ℕ) (ms : ServerState) (p : ℕ) where
  state_of-after_module :
      (idx : ℕ) (o : Option ServerInfo) (old : Option RemoteSpanInfo)
      → state_of (after_module offset n ms p idx o old) ≡ announced ms o (state_of old)
  state_of-after_module idx none old = refl
  state_of-after_module idx (some info) none = ground arith
  state_of-after_module idx (some info) (some span) = ground arith

  state_of-peer_span :
      (idx : ℕ) (infos : List RemoteModuleInfo) (old : Option RemoteSpanInfo)
      → state_of (peer_span offset n ms p idx infos old) ≡ best_state ms p infos (state_of old)
  unfolding peer_span best_state
  state_of-peer_span idx [] old = refl
  state_of-peer_span idx (m ∷ infos) old =
      state_of-peer_span (idx + 1) infos (after_module offset n ms p idx (lookup p m.servers) old)
      ∙ rw (state_of-after_module idx (lookup p m.servers) old)

-- A peer has a span exactly when it announces a state that is good enough, and the span's state is
-- the best of those that it announces.
pub state-compute_spans :
    (infos : List RemoteModuleInfo) (min_state : ServerState) (p : ℕ)
    → AreDicts infos
    → state_of (lookup p (compute_spans infos min_state)) ≡ best_state min_state p infos none
state-compute_spans infos ms p h =
    rw (lookup-compute_spans infos ms p h)
      (state_of-peer_span (block_offset infos) (length infos) ms p 0 infos none)

-- Later records leave a span alone, lengthen it, or replace it by one of a better state.
abbrev Grows : RemoteSpanInfo → RemoteSpanInfo → Type 0
Grows a b =
    (value (state a) < value (state b))
    ⊎ ((value (state a) ≡ value (state b)) × (b.start ≡ a.start) × (a.end ≤ℤ b.end))

Grows-trans : (a b c : RemoteSpanInfo) → Grows a b → Grows b c → Grows a c
Grows-trans a b c h k = ground arith

abbrev GrowsTo : RemoteSpanInfo → Option RemoteSpanInfo → Type 0
GrowsTo a none = ⊥
GrowsTo a (some b) = Grows a b

-- No record of the peer declares its range of blocks.
abbrev pub IsOpen : Option ServerInfo → Type 0
IsOpen none = Unit
IsOpen (some info) = info.start_block ≡ none

abbrev pub AllOpen : ℕ → List RemoteModuleInfo → Type 0
AllOpen p [] = Unit
AllOpen p (m ∷ infos) = IsOpen (lookup p m.servers) × AllOpen p infos

abbrev StartsBy : ℕ → Option RemoteSpanInfo → Type 0
StartsBy idx none = Unit
StartsBy idx (some span) = span.start ≤ idx

-- The span is of a better state, or it holds block `i`.
abbrev Holds : ℕ → ServerInfo → Option RemoteSpanInfo → Type 0
Holds i info none = ⊥
Holds i info (some b) =
    (value info.state < value (state b))
    ⊎ ((value info.state ≡ value (state b)) × (b.start ≤ i) × (pos (i + 1) ≤ℤ b.end))

module _ (offset n : ℕ) (ms : ServerState) (p : ℕ) where
  GrowsTo-after_module :
      (idx : ℕ) (o : Option ServerInfo) (span : RemoteSpanInfo)
      → GrowsTo span (after_module offset n ms p idx o (some span))
  GrowsTo-after_module idx none span = ground arith
  GrowsTo-after_module idx (some info) span = ground arith

  GrowsTo-peer_span :
      (idx : ℕ) (infos : List RemoteModuleInfo) (a b : RemoteSpanInfo)
      → Grows a b
      → GrowsTo a (peer_span offset n ms p idx infos (some b))
  unfolding peer_span
  GrowsTo-peer_span idx [] a b h = h
  GrowsTo-peer_span idx (m ∷ infos) a b h =
      go (after_module offset n ms p idx (lookup p m.servers) (some b))
        (GrowsTo-after_module idx (lookup p m.servers) b) (GrowsTo-peer_span (idx + 1) infos)
    where
      go :
          (o : Option RemoteSpanInfo)
          → GrowsTo b o
          → ((x y : RemoteSpanInfo)
              → Grows x y
              → GrowsTo x (peer_span offset n ms p (idx + 1) infos (some y)))
          → GrowsTo a (peer_span offset n ms p (idx + 1) infos o)
      go none g ih = elim g [ ]
      go (some c) g ih = ih a c (Grows-trans a b c h g)

  StartsBy-after_module :
      (idx : ℕ) (o : Option ServerInfo) (old : Option RemoteSpanInfo)
      → IsOpen o
      → StartsBy idx old
      → StartsBy (idx + 1) (after_module offset n ms p idx o old)
  StartsBy-after_module idx none none h s = tt
  StartsBy-after_module idx none (some span) h s = omega arith
  StartsBy-after_module idx (some info) none h s = ground arith
  StartsBy-after_module idx (some info) (some span) h s = ground arith

  Holds-next_span :
      (idx : ℕ) (info : ServerInfo) (old : Option RemoteSpanInfo)
      → value ms ≤ value info.state
      → info.start_block ≡ none
      → StartsBy idx old
      → Holds idx info (next_span offset n ms p idx info old)
  Holds-next_span idx info none a h s = ground arith
  Holds-next_span idx info (some span) a h s = ground arith

  Holds-later :
      (i idx : ℕ) (info : ServerInfo) (infos : List RemoteModuleInfo) (o : Option RemoteSpanInfo)
      → Holds i info o
      → Holds i info (peer_span offset n ms p idx infos o)
  Holds-later i idx info infos none h = elim h [ ]
  Holds-later i idx info infos (some b) h =
      go (peer_span offset n ms p idx infos (some b))
        (GrowsTo-peer_span idx infos b b (inr (refl, refl, omega arith)))
    where
      go : (o : Option RemoteSpanInfo) → GrowsTo b o → Holds i info o
      go none g = elim g [ ]
      go (some c) g = ground arith

  Holds-peer_span :
      (i idx : ℕ) (infos : List RemoteModuleInfo) (old : Option RemoteSpanInfo)
      → AllOpen p infos
      → StartsBy idx old
      → {m : RemoteModuleInfo} {info : ServerInfo} → get_elem? infos i ≡ some m
      → lookup p m.servers ≡ some info
      → value ms ≤ value info.state
      → Holds (idx + i) info (peer_span offset n ms p idx infos old)
  unfolding peer_span
  Holds-peer_span i idx [] old op s e q a = cc
  Holds-peer_span zero idx (m' ∷ infos) old op s {m} {info} e q a =
      let here : lookup p m'.servers ≡ some info = cc in
      let shut : info.start_block ≡ none = rw here at op.0 in
      let sum : idx + 0 ≡ idx = omega arith in
      rw (here, sum)
        (Holds-later idx (idx + 1) info infos (next_span offset n ms p idx info old)
          (Holds-next_span idx info old a shut s))
  Holds-peer_span (suc i) idx (m' ∷ infos) old op s {m} {info} e q a =
      let sum : idx + suc i ≡ idx + 1 + i = omega arith in
      rw sum (
        Holds-peer_span i (idx + 1) infos _ op.1
          (StartsBy-after_module idx (lookup p m'.servers) old op.0 s) e q a)

best_of_Holds :
    (i : ℕ) (info : ServerInfo) (o : Option RemoteSpanInfo) {span : RemoteSpanInfo}
    → Holds i info o
    → o ≡ some span
    → state span ≡ info.state
    → (span.start ≤ i) × (pos (i + 1) ≤ℤ span.end)
best_of_Holds i info none {span} h e b = cc
best_of_Holds i info (some c) {span} h e b = ground arith

-- Where a peer declares no range of its own, its span holds every block at which it is listed in
-- the best of its states.
pub compute_spans_covers :
    (infos : List RemoteModuleInfo) (min_state : ServerState) (p i : ℕ)
    → AreDicts infos
    → AllOpen p infos
    → {m : RemoteModuleInfo} {info : ServerInfo} {span : RemoteSpanInfo}
    → get_elem? infos i ≡ some m
    → lookup p m.servers ≡ some info
    → value min_state ≤ value info.state
    → lookup p (compute_spans infos min_state) ≡ some span
    → state span ≡ info.state
    → (span.start ≤ i) × (pos (i + 1) ≤ℤ span.end)
compute_spans_covers infos ms p i d op {m} {info} {span} e q a found best =
    best_of_Holds i info (peer_span (block_offset infos) (length infos) ms p 0 infos none)
      (let sum : 0 + i ≡ i = omega arith in
        rw sum at
          (Holds-peer_span (block_offset infos) (length infos) ms p i 0 infos none op tt e q a))
      (sym (lookup-compute_spans infos ms p d) ∙ found) best
