-- ===== src/Swarm/Tests/Moves.antt =====
-- Runs of should_choose_other_blocks, and its theorems at concrete inputs.
use subnet_llm_template.Prelude.{
  ℕ, ◌≡◌, refl, true, false, some, none, List, [], ◌∷◌, arith, ◌==◌, Bool-cases, inl, inr,
}
use subnet_llm_template.Prelude.Int.{pos, ◌+ℤ◌, ◌-ℤ◌, ◌*ℤ◌}
use subnet_llm_template.Prelude.Dict.{Dict, lookup}
use subnet_llm_template.Swarm.Data.{
  online, joining, ServerInfo, RemoteModuleInfo, RemoteSpanInfo, length as span_length,
}
use subnet_llm_template.Swarm.Spans.{compute_spans}
use subnet_llm_template.Swarm.Blocks.{compute_throughputs, choose_best_start}
use subnet_llm_template.Swarm.Balance.{
  Plan, returns, rebalance, visit_all, keys, should_choose_other_blocks,
}
use subnet_llm_template.Swarm.Balance.Places.{AllFit, AllIn, Rearranged-refl}
use subnet_llm_template.Swarm.Balance.Rounds.{Balanced, visit_all-Balanced}
use subnet_llm_template.Swarm.Balance.Minimum.{compute_throughputs-Accounts}
use subnet_llm_template.Swarm.Balance.Advice.{Shuffles, IsJustified}
use subnet_llm_template.Swarm.Balance.Verdict.{should_choose_other_blocks-IsJustified}

abbrev serves : ℕ → ServerInfo
serves n = record {
  state = online;
  throughput = n;
  start_block = none;
  end_block = none;
  inference_rps = none;
  adapters = [];
  cache_tokens_left = none;
  next_pings = none;
}

abbrev block : ℕ → Dict ServerInfo → RemoteModuleInfo
block i servers = record { uid = record { dht_prefix = 0; index = i }; servers = servers }

-- Servers 1 and 2 serve block 0, and server 3, which is slow, serves block 1.
abbrev crowded : List RemoteModuleInfo
crowded = block 0 ((1, serves 10) ∷ (2, serves 10) ∷ []) ∷ block 1 ((3, serves 1) ∷ []) ∷ []

abbrev crowded_spans : Dict RemoteSpanInfo
crowded_spans =
    (1, record { peer_id = 1; start = 0; end = pos 1; server_info = serves 10 })
    ∷ (2, record { peer_id = 2; start = 0; end = pos 1; server_info = serves 10 })
    ∷ (3, record { peer_id = 3; start = 1; end = pos 2; server_info = serves 1 })
    ∷ []

crowded_spans_lem : compute_spans crowded joining ≡ crowded_spans
unfolding compute_spans
crowded_spans_lem = refl

abbrev in_order : ℕ → List ℕ → List ℕ
in_order n ks = ks

moves : should_choose_other_blocks in_order 5 1 1 750 crowded ≡ returns true
unfolding should_choose_other_blocks rebalance visit_all compute_spans compute_throughputs
    choose_best_start span_length ◌+ℤ◌ ◌-ℤ◌ ◌*ℤ◌
moves = refl

-- The only server of a block stays.
stays : should_choose_other_blocks in_order 5 3 1 750 crowded ≡ returns false
unfolding should_choose_other_blocks rebalance visit_all compute_spans compute_throughputs
    choose_best_start span_length ◌+ℤ◌ ◌-ℤ◌ ◌*ℤ◌
stays = refl

-- Where 1e-3 is two units: a throughput below that does not keep its server, though no other one has
-- block 1.
abbrev slow : List RemoteModuleInfo
slow =
    block 0 ((1, serves 2000) ∷ (2, serves 2000) ∷ [])
    ∷ block 1 ((9, serves 1) ∷ [])
    ∷ block 2 ((9, serves 1) ∷ (3, serves 6000) ∷ [])
    ∷ []

leaves_block : should_choose_other_blocks in_order 5 9 2000 750 slow ≡ returns true
unfolding should_choose_other_blocks rebalance visit_all compute_spans compute_throughputs
    choose_best_start span_length ◌+ℤ◌ ◌-ℤ◌ ◌*ℤ◌
leaves_block = refl

AllIn-more :
    (ks : List ℕ) (e : ℕ × RemoteSpanInfo) (spans : Dict RemoteSpanInfo)
    → AllIn ks spans
    → AllIn ks (e ∷ spans)
AllIn-more [] e spans h = tt
AllIn-more (k ∷ ks) (i, s) spans ((t, found), rest) = (here, AllIn-more ks (i, s) spans rest)
  where
    here : (u : RemoteSpanInfo) × (lookup k ((i, s) ∷ spans) ≡ some u)
    here = elim (Bool-cases (k == i)) [
      | inl same ↦ (s, rw same refl)
      | inr other ↦ (t, rw other found)
    ]

in_order-Shuffles : Shuffles in_order
in_order-Shuffles n [] = tt
in_order-Shuffles n ((k, s) ∷ spans) =
    (here, AllIn-more (keys spans) (k, s) spans (in_order-Shuffles n spans))
  where
    here : (u : RemoteSpanInfo) × (lookup k ((k, s) ∷ spans) ≡ some u)
    here = let same : (k == k) ≡ true = ground arith in (s, rw same refl)

crowded-AllFit : AllFit 2 crowded_spans
crowded-AllFit = ((1, refl, omega arith), ((1, refl, omega arith), ((1, refl, omega arith), tt)))

abbrev plan : Plan
plan = record {
  throughputs = compute_throughputs crowded_spans 2;
  spans = crowded_spans;
  moved = false;
}

visit_all-Balanced_example :
    (next : Plan) × (visit_all (3 ∷ 1 ∷ []) plan ≡ some next) × Balanced 2 crowded_spans next
visit_all-Balanced_example =
    visit_all-Balanced 2 crowded_spans (3 ∷ 1 ∷ []) plan
      (
        (record { peer_id = 3; start = 1; end = pos 2; server_info = serves 1 }, refl),
        ((record { peer_id = 1; start = 0; end = pos 1; server_info = serves 10 }, refl), tt),
      )
      (compute_throughputs-Accounts crowded_spans 2, crowded-AllFit, Rearranged-refl crowded_spans)

should_choose_other_blocks-IsJustified_example :
    IsJustified 2 1 750
      (compute_spans crowded joining)
      (record { peer_id = 1; start = 0; end = pos 1; server_info = serves 10 })
      (should_choose_other_blocks in_order 5 1 1 750 crowded)
unfolding compute_spans
should_choose_other_blocks-IsJustified_example =
    should_choose_other_blocks-IsJustified in_order in_order-Shuffles 5 1 1 750 crowded
      (record { peer_id = 1; start = 0; end = pos 1; server_info = serves 10 }) (omega arith)
      (omega arith) refl crowded-AllFit
