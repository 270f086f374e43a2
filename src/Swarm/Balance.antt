-- ===== src/Swarm/Balance.antt =====
-- `should_choose_other_blocks` of src/subnet/server/block_selection.py: whether a server should move to
-- other blocks, found by moving all servers in turn until none of them wants to move. As in Blocks an
-- array counts thousandths of the unit in which throughputs are given, and sums are exact. The unit is
-- left open: `eps` is how many of these thousandths make 1e-3, so that a throughput may be far below
-- 1e-3 or far above. `balance_quality`, a ratio, is in thousandths.
pub mod Accounts
pub mod Places
pub mod Rounds
pub mod Minimum
pub mod Advice
pub mod Verdict
use subnet_llm_template.Prelude.{
  ℕ, zero, suc, ◌+◌, ◌-◌, ◌*◌, Bool, true, false, ◌&&◌, ◌||◌, Option, none, some, List, [], ◌∷◌,
  length, take, drop, ltb, ◌==◌, if◌then◌else◌,
}
use subnet_llm_template.Prelude.Int.{ℤ, pos, negsuc, ◌+ℤ◌, ◌-ℤ◌, ◌*ℤ◌, ltb_ℤ, leb_ℤ, min_ℤ}
use subnet_llm_template.Prelude.Dict.{Dict, lookup, insert}
use subnet_llm_template.Swarm.Data.{
  joining, RemoteModuleInfo, RemoteSpanInfo, throughput, length as span_length,
}
use subnet_llm_template.Swarm.Spans.{compute_spans}
use subnet_llm_template.Swarm.Blocks.{
  slice_end, add_span, sorted_numbers, min_option, index_of, choose_best_start, compute_throughputs,
}

-- A call raises, or has run out of the rounds of the model, or returns.
pub data Call (A : Type 0) : Type 0 where
  raises unfinished : Call A
  returns : A → Call A

-- The array of throughputs, the spans, and whether one has moved in this round.
pub record Plan : Type 0 where
  pub throughputs : List ℤ
  pub spans : Dict RemoteSpanInfo
  pub moved : Bool

abbrev pub neg : ℕ → ℤ
neg zero = pos 0
neg (suc n) = negsuc n

-- `throughputs.min()`, which raises on an empty array
abbrev pub min_from : ℤ → List ℤ → ℤ
min_from best [] = best
min_from best (x ∷ xs) = min_from (min_ℤ best x) xs

abbrev pub min_of : List ℤ → Option ℤ
min_of [] = none
min_of (x ∷ xs) = some (min_from x xs)

-- The options of `_choose_best_start` for a span that ends `k + 1` blocks before it starts.
abbrev back_options : List ℤ → ℕ → ℕ → ℕ → List (List ℤ × ℕ)
back_options xs k i zero = []
back_options xs k i (suc n) =
    (sorted_numbers (take (slice_end (length xs) (pos i -ℤ pos (k + 1)) - i) (drop i xs)), i)
    ∷ back_options xs k (i + 1) n

-- `_choose_best_start(throughputs, span.length)`
abbrev pub best_start_for : List ℤ → ℤ → Option ℕ
best_start_for xs (pos n) = choose_best_start xs n
best_start_for xs (negsuc k) = index_of (min_option (back_options xs k 0 (length xs + k + 2)))

abbrev pub move_span : RemoteSpanInfo → ℕ → RemoteSpanInfo
move_span span new_start = record span {
  start = new_start;
  end = pos new_start +ℤ span_length span;
}

-- `throughputs[span.start : span.end] -= span.throughput * (1 + eps)`
abbrev pub take_out : RemoteSpanInfo → List ℤ → List ℤ
take_out span xs = add_span span (neg (1001 * throughput span)) xs

-- `+= span.throughput * eps` at the old place, and `+= span.throughput` at the new one
abbrev pub put_back : RemoteSpanInfo → RemoteSpanInfo → List ℤ → List ℤ
put_back old new xs =
    add_span new (pos (1000 * throughput new)) (add_span old (pos (throughput old)) xs)

abbrev pub settle : ℕ → RemoteSpanInfo → ℕ → Plan → Plan
settle peer_id span new_start plan =
    let taken = take_out span plan.throughputs in
    if span.start == new_start
    then record plan { throughputs = put_back span span taken }
    else record plan {
      throughputs = put_back span (move_span span new_start) taken;
      spans = insert peer_id (move_span span new_start) plan.spans;
      moved = true;
    }

abbrev settle_at : ℕ → RemoteSpanInfo → Plan → Option ℕ → Option Plan
settle_at peer_id span plan none = none
settle_at peer_id span plan (some new_start) = some (settle peer_id span new_start plan)

abbrev visit_span : ℕ → Plan → Option RemoteSpanInfo → Option Plan
visit_span peer_id plan none = none
visit_span peer_id plan (some span) =
    settle_at peer_id span plan (best_start_for (take_out span plan.throughputs) (span_length span))

abbrev pub go_on : (Plan → Option Plan) → Option Plan → Option Plan
go_on rest none = none
go_on rest (some plan) = rest plan

-- The loop over the servers; `none` if it raises.
unfoldable pub visit_all : List ℕ → Plan → Option Plan
unfolding choose_best_start span_length
visit_all [] plan = some plan
visit_all (peer_id ∷ servers) plan =
    go_on (visit_all servers) (visit_span peer_id plan (lookup peer_id plan.spans))

abbrev pub keys : Dict RemoteSpanInfo → List ℕ
keys [] = []
keys ((k, _) ∷ spans) = k ∷ keys spans

-- The end of a round.
abbrev next_round : (Plan → Call Plan) → Option Plan → Call Plan
next_round again none = raises
next_round again (some plan) = let more = again plan in if plan.moved then more else returns plan

abbrev pub verdict : ℤ → ℕ → ℕ → Option ℤ → Call Bool
verdict initial eps balance_quality none = raises
verdict initial eps balance_quality (some new) = returns (
    if ltb_ℤ new initial || ltb_ℤ new (pos eps)
    then false
    else ltb_ℤ (pos 1000 *ℤ initial) ((pos balance_quality -ℤ pos 1) *ℤ new))

abbrev pub judge : ℤ → ℕ → ℕ → Call Plan → Call Bool
judge initial eps balance_quality raises = raises
judge initial eps balance_quality unfinished = unfinished
judge initial eps balance_quality (returns plan) =
    verdict initial eps balance_quality (min_of plan.throughputs)

-- `shuffle n` is what `np.random.shuffle` makes of a list in round number `n`.
module _ (shuffle : ℕ → List ℕ → List ℕ) where
  -- `while moved`
  unfoldable pub rebalance : ℕ → ℕ → Plan → Call Plan
  unfolding visit_all
  rebalance zero n plan = unfinished
  rebalance (suc rounds) n plan =
      next_round (rebalance rounds (n + 1))
        (visit_all (shuffle n (keys plan.spans)) (record plan { moved = false }))

  module _ (rounds : ℕ) (local_peer_id eps balance_quality : ℕ) where
    abbrev pub try_start : Plan → ℤ → RemoteSpanInfo → Option ℕ → Call Bool
    try_start plan initial span none = raises
    try_start plan initial span (some new_start) =
        let balanced = rebalance rounds 0 (settle local_peer_id span new_start plan) in
        if span.start == new_start
        then returns false
        else judge initial eps balance_quality balanced

    abbrev without_local : Plan → ℤ → RemoteSpanInfo → Option ℤ → Call Bool
    without_local plan initial span none = raises
    without_local plan initial span (some least) =
        if ltb_ℤ (pos eps) initial && leb_ℤ least (pos 0)
        then returns false
        else try_start plan initial span
            (best_start_for (take_out span plan.throughputs) (span_length span))

    abbrev with_local : Plan → ℤ → Option RemoteSpanInfo → Call Bool
    with_local plan initial none = raises
    with_local plan initial (some span) =
        without_local plan initial span (min_of (take_out span plan.throughputs))

    abbrev with_initial : Plan → Option ℤ → Call Bool
    with_initial plan none = raises
    with_initial plan (some initial) = with_local plan initial (lookup local_peer_id plan.spans)

    abbrev pub start_plan : List RemoteModuleInfo → Plan
    start_plan module_infos =
        let spans = compute_spans module_infos joining in
        record {
          throughputs = compute_throughputs spans (length module_infos);
          spans = spans;
          moved = true;
        }

    unfoldable pub should_choose_other_blocks : List RemoteModuleInfo → Call Bool
    unfolding rebalance compute_spans compute_throughputs choose_best_start span_length
    should_choose_other_blocks module_infos =
        let plan = start_plan module_infos in
        if ltb 1000 balance_quality
        then returns true
        else with_initial plan (min_of plan.throughputs)
