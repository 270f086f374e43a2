-- ===== src/Client/Routing.antt =====
-- src/subnet/client/routing/sequence_info.py, and of src/subnet/client/routing/sequence_manager.py
-- what keeps the routing table and makes a sequence for throughput. A span's bounds are numbers,
-- since the modules of a client start at its first block.
pub mod Order
pub mod Table
pub mod Sequence
pub mod Latency
use subnet_llm_template.Prelude.{
  zero, suc, ltb, get_elem?, Option, none, some, ℕ, zero, suc, ◌+◌, ◌-◌, ◌*◌, ◌^◌, min, Bool, true,
  false, ◌&&◌, ◌||◌, not, Option, none, some, List, [], ◌∷◌, ◌++◌, length, get_elem?, take, drop,
  ◌==◌, ltb, leb, if◌then◌else◌,
}
use subnet_llm_template.Prelude.Int.{pos_part, ℤ, pos, ltb_ℤ, leb_ℤ}
use subnet_llm_template.Prelude.Dict.{Dict, lookup, insert, erase}
use subnet_llm_template.Swarm.Data.{
  ServerInfo, online, ModuleUid, RemoteModuleInfo, RemoteSpanInfo, length as span_length,
}
use subnet_llm_template.Swarm.Spans.{compute_spans}

pub record RemoteSequenceInfo : Type 0 where
  pub block_uids : List ModuleUid
  pub block_infos : List RemoteModuleInfo
  pub spans_by_priority : List RemoteSpanInfo
  pub spans_containing_block : List (List RemoteSpanInfo)
  pub last_updated_time : Option ℕ

abbrev pub empty_info : ModuleUid → RemoteModuleInfo
empty_info uid = record { uid = uid; servers = [] }

abbrev pub empty_infos : List ModuleUid → List RemoteModuleInfo
empty_infos [] = []
empty_infos (uid ∷ uids) = empty_info uid ∷ empty_infos uids

abbrev pub no_spans : {A : Type 0} → List A → List (List RemoteSpanInfo)
no_spans [] = []
no_spans (_ ∷ xs) = [] ∷ no_spans xs

abbrev pub make_empty : List ModuleUid → RemoteSequenceInfo
make_empty block_uids = record {
  block_uids = block_uids;
  block_infos = empty_infos block_uids;
  spans_by_priority = [];
  spans_containing_block = no_spans block_uids;
  last_updated_time = none;
}

abbrev pub values : Dict RemoteSpanInfo → List RemoteSpanInfo
values [] = []
values ((_, s) ∷ spans) = s ∷ values spans

-- `sort(key=length, reverse=True)`, which keeps the order of spans of one length.
abbrev pub insert_longest : RemoteSpanInfo → List RemoteSpanInfo → List RemoteSpanInfo
insert_longest s [] = s ∷ []
insert_longest s (t ∷ ts) =
    if leb_ℤ (span_length t) (span_length s) then s ∷ t ∷ ts else t ∷ insert_longest s ts

abbrev pub longest_first : List RemoteSpanInfo → List RemoteSpanInfo
longest_first [] = []
longest_first (s ∷ ts) = insert_longest s (longest_first ts)

abbrev pub holds : ℕ → RemoteSpanInfo → Bool
holds block span = leb span.start block && ltb_ℤ (pos block) span.end

-- `for block_index in range(span.start, span.end)`, from block `i` on. No span of `compute_spans`
-- ends after the last block.
unfoldable pub append_span :
    ℕ → RemoteSpanInfo → List (List RemoteSpanInfo) → List (List RemoteSpanInfo)
append_span i span [] = []
append_span i span (spans ∷ rest) =
    (if holds i span then spans ++ span ∷ [] else spans) ∷ append_span (i + 1) span rest

unfoldable pub append_spans :
    List RemoteSpanInfo → List (List RemoteSpanInfo) → List (List RemoteSpanInfo)
unfolding append_span
append_spans [] containing = containing
append_spans (s ∷ spans) containing = append_spans spans (append_span 0 s containing)

unfoldable pub sort_spans : List RemoteModuleInfo → List RemoteSpanInfo × List (List RemoteSpanInfo)
unfolding append_spans compute_spans
sort_spans block_infos =
    let spans = longest_first (values (compute_spans block_infos online)) in
    (spans, append_spans spans (no_spans block_infos))

abbrev pub slice : {A : Type 0} → ℕ → ℕ → List A → List A
slice start end xs = drop start (take end xs)

-- `__getitem__`
unfoldable pub get_slice : ℕ → ℕ → RemoteSequenceInfo → RemoteSequenceInfo
unfolding sort_spans
get_slice start end s =
    let infos = slice start end s.block_infos in
    let (by_priority, containing) = sort_spans infos in
    record {
      block_uids = slice start end s.block_uids;
      block_infos = infos;
      spans_by_priority = by_priority;
      spans_containing_block = containing;
      last_updated_time = s.last_updated_time;
    }

abbrev pub same_uid : ModuleUid → ModuleUid → Bool
same_uid a b = a.dht_prefix == b.dht_prefix && a.index == b.index

abbrev pub prepend :
    RemoteModuleInfo → Option (List RemoteModuleInfo) → Option (List RemoteModuleInfo)
prepend m none = none
prepend m (some ms) = some (m ∷ ms)

-- The loop of `update_`, which takes over the servers; `none` where an `assert` fails.
unfoldable pub take_servers :
    List ModuleUid → List RemoteModuleInfo → List RemoteModuleInfo → Option (List RemoteModuleInfo)
take_servers [] [] [] = some []
take_servers (uid ∷ uids) (old ∷ olds) (new ∷ news) =
    let rest = take_servers uids olds news in
    if same_uid uid new.uid then prepend (record old { servers = new.servers }) rest else none
take_servers uids olds news = none

abbrev pub set_infos :
    ℕ → RemoteSequenceInfo → Option (List RemoteModuleInfo) → Option RemoteSequenceInfo
set_infos now s none = none
set_infos now s (some infos) = some (record s {
  block_infos = infos;
  spans_by_priority = (sort_spans infos).0;
  spans_containing_block = (sort_spans infos).1;
  last_updated_time = some now;
})

-- `update_`, at the time `now`.
unfoldable pub update : ℕ → List RemoteModuleInfo → RemoteSequenceInfo → Option RemoteSequenceInfo
unfolding take_servers sort_spans
update now new_block_infos s =
    set_infos now s (take_servers s.block_uids s.block_infos new_block_infos)

-- A dict comprehension with a condition on the key.
unfoldable pub keep : (ℕ → Bool) → Dict ServerInfo → Dict ServerInfo
keep test [] = []
keep test ((k, v) ∷ d) = if test k then (k, v) ∷ keep test d else keep test d

abbrev pub in_set : ℕ → List ℕ → Bool
in_set k [] = false
in_set k (x ∷ xs) = k == x || in_set k xs

abbrev pub is_allowed : Option (List ℕ) → ℕ → Bool
is_allowed none k = true
is_allowed (some allowed) k = in_set k allowed

abbrev pub is_blocked : Option (List ℕ) → ℕ → Bool
is_blocked none k = false
is_blocked (some blocked) k = in_set k blocked

abbrev pub or_else : Dict ServerInfo → Dict ServerInfo → Dict ServerInfo
or_else [] servers = servers
or_else (e ∷ valid) servers = e ∷ valid

-- What `_update` makes of the servers of a block: allowed and not blocked, and without those that are
-- banned at the moment, unless that leaves none.
module _ (allowed_servers blocked_servers : Option (List ℕ)) (banned : ℕ → Bool) where
  unfoldable pub usable : Dict ServerInfo → Dict ServerInfo
  unfolding keep
  usable servers =
      let listed =
        keep (λ k. is_allowed allowed_servers k && not (is_blocked blocked_servers k)) servers in
      or_else (keep (λ k. not (banned k)) listed) listed

  abbrev pub usable_infos : List RemoteModuleInfo → List RemoteModuleInfo
  usable_infos [] = []
  usable_infos (m ∷ infos) = record m { servers = usable m.servers } ∷ usable_infos infos

  -- `_update`, up to the pings.
  unfoldable pub update_manager :
      ℕ → List RemoteModuleInfo → RemoteSequenceInfo → Option RemoteSequenceInfo
  unfolding update usable
  update_manager now new_block_infos s = update now (usable_infos new_block_infos) s

-- The loop of `on_request_failure`.
abbrev pub pop : Option ℕ → Dict ServerInfo → Dict ServerInfo
pop none servers = servers
pop (some peer_id) servers = erase peer_id servers

unfoldable pub remove_peer : Option ℕ → List RemoteModuleInfo → List RemoteModuleInfo
remove_peer peer_id [] = []
remove_peer peer_id (m ∷ infos) =
    record m { servers = pop peer_id m.servers } ∷ remove_peer peer_id infos

abbrev pub is_nobody : Dict ServerInfo → Bool
is_nobody [] = true
is_nobody (_ ∷ _) = false

unfoldable pub has_gap : List RemoteModuleInfo → Bool
has_gap [] = false
has_gap (m ∷ infos) = is_nobody m.servers || has_gap infos

-- `on_request_failure`, and whether it asks for an update. The ban itself is kept by the blacklist.
unfoldable pub on_request_failure : Option ℕ → RemoteSequenceInfo → Bool × RemoteSequenceInfo
unfolding remove_peer has_gap
on_request_failure peer_id s =
    let infos = remove_peer peer_id s.block_infos in
    (has_gap infos, record s { block_infos = infos })

-- `get_retry_delay`
unfoldable pub get_retry_delay : ℕ → ℕ → ℕ → ℕ
get_retry_delay min_backoff max_backoff zero = 0
get_retry_delay min_backoff max_backoff (suc n) = min (min_backoff * 2 ^ n) max_backoff

-- `np.random.choice`, by the number that is drawn.
abbrev pub nth : ℕ → RemoteSpanInfo → List RemoteSpanInfo → RemoteSpanInfo
nth zero s spans = s
nth (suc n) s [] = s
nth (suc n) s (t ∷ spans) = nth n t spans

abbrev pub route_on :
    ℕ → RemoteSpanInfo → (ℕ → Option (List RemoteSpanInfo)) → Option (List RemoteSpanInfo)
route_on current span go_on =
    if holds current span
    then elim (go_on (pos_part span.end)) [
      | none ↦ none
      | some rest ↦ some (record span { start = current } ∷ rest)
    ]
    else none

-- A block with no server raises MissingBlocksError.
abbrev pub choose_span :
    ℕ
    → ℕ
    → Option (List RemoteSpanInfo)
    → (ℕ → Option (List RemoteSpanInfo))
    → Option (List RemoteSpanInfo)
choose_span drawn current none go_on = none
choose_span drawn current (some []) go_on = none
choose_span drawn current (some (s ∷ spans)) go_on = route_on current (nth drawn s spans) go_on

-- `_make_sequence_with_max_throughput`, for at most `fuel` spans; `draw` gives the number that is
-- drawn for each block.
unfoldable pub make_sequence_with_max_throughput :
    (ℕ → ℕ) → ℕ → ℕ → ℕ → List (List RemoteSpanInfo) → Option (List RemoteSpanInfo)
make_sequence_with_max_throughput draw zero current end containing =
    if ltb current end then none else some []
make_sequence_with_max_throughput draw (suc fuel) current end containing =
    if ltb current end
    then choose_span (draw current) current (get_elem? containing current)
        (λ next. make_sequence_with_max_throughput draw fuel next end containing)
    else some []
