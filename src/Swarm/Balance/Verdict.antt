-- ===== src/Swarm/Balance/Verdict.antt =====
-- The advice to move, from the module records on.
use mathlib.Core.Path.{subst}
use subnet_llm_template.Prelude.{
  ℕ, ◌+◌, ◌*◌, ◌≤◌, ◌<◌, ◌≡◌, refl, sym, Bool, true, false, ◌&&◌, some, List, [], ◌∷◌, arith,
  length, ltb, ◌==◌, if◌then◌else◌, Bool-cases, inl, inr,
}
use subnet_llm_template.Prelude.Int.{
  ℤ, pos, negsuc, ◌+ℤ◌, ltb_ℤ, leb_ℤ, int_laws, pos_part, neg_part,
}
use subnet_llm_template.Prelude.Dict.{Dict, lookup}
use subnet_llm_template.Swarm.Data.{
  joining, RemoteModuleInfo, RemoteSpanInfo, throughput, length as span_length,
}
use subnet_llm_template.Swarm.Spans.{compute_spans}
use subnet_llm_template.Swarm.Blocks.Throughputs.{share_of_all}
use subnet_llm_template.Swarm.Balance.{
  returns, Plan, neg, min_from, min_of, best_start_for, take_out, settle, judge, rebalance,
  try_start, start_plan, should_choose_other_blocks,
}
use subnet_llm_template.Swarm.Balance.Accounts.{
  Accounts, holds, length-add_span, get_elem?-add_span, pos-neg, neg-neg,
}
use subnet_llm_template.Swarm.Balance.Places.{AllFit, AllFit-lookup, Rearranged-refl}
use subnet_llm_template.Swarm.Balance.Rounds.{Balanced, settle-Balanced, best_start_for-Fits}
use subnet_llm_template.Swarm.Balance.Minimum.{
  Least, min_from-le, least-get_elem?, compute_throughputs-Accounts,
}
use subnet_llm_template.Swarm.Balance.Advice.{
  Shuffles, rebalance-Balanced, Least-share, StaysServed, IsJustified, judge-IsJustified,
}

some-Least : (xs : List ℤ) → 0 < length xs → (m : ℤ) × (min_of xs ≡ some m) × Least m xs
some-Least [] h = absurd (omega arith)
some-Least (x ∷ xs) h = (min_from x xs, refl, min_from-le x xs)

one_sign : (x : ℤ) → 0 < pos_part x → neg_part x ≡ 0
one_sign (pos n) h = refl
one_sign (negsuc n) h = absurd (omega arith)

above :
    (least : ℤ) (a eps : ℕ)
    → eps < 1000 * a
    → (ltb_ℤ (pos eps) (pos (1000 * a)) && leb_ℤ least (pos 0)) ≡ false
    → 0 < pos_part least
above (pos n) a eps some_there guard = ground arith
above (negsuc n) a eps some_there guard = ground arith

-- A block that has throughput left has more than what was taken out.
left_over :
    (c : Bool) (a t : ℕ)
    → 0 < a
    → 0 < pos_part (if c then pos (1000 * a) +ℤ neg (1001 * t) else pos (1000 * a))
    → (if c then t else 0) < a
left_over false a t some_there h = some_there
left_over true a t some_there h = omega (
  int_laws,
  h,
  one_sign (pos (1000 * a) +ℤ neg (1001 * t)),
  pos-neg (1001 * t),
  neg-neg (1001 * t),
)

module _ (total : ℕ) (start : Dict RemoteSpanInfo) (span : RemoteSpanInfo) (xs : List ℤ)
    (eps balance_quality : ℕ) where
  stays_served :
      (worst : ℕ) (least : ℤ)
      → worst < total
      → Accounts total xs start
      → Least least (take_out span xs)
      → (ltb_ℤ (pos eps) (pos (1000 * share_of_all total worst start)) && leb_ℤ least (pos 0))
        ≡ false
      → StaysServed total eps balance_quality start span
  stays_served worst least within (e, right) below guard served j j_within =
      let positive = above least (share_of_all total worst start) eps (served worst within) guard in
      let some_there = served j j_within in
      let found =
        get_elem?-add_span span (neg (1001 * throughput span)) xs total j e (right j j_within) in
      let a = share_of_all total j start in
      let here =
        if holds total j span
        then pos (1000 * a) +ℤ neg (1001 * throughput span)
        else pos (1000 * a) in
      let le = least-get_elem? least here (take_out span xs) j below found in
      left_over (holds total j span) a (throughput span) (omega arith)
        (omega (arith, le, positive, one_sign least positive))

module _ (shuffle : ℕ → List ℕ → List ℕ) (shuffles : Shuffles shuffle)
    (rounds local_peer_id eps balance_quality : ℕ) (module_infos : List RemoteModuleInfo) where
  -- the spans that the swarm has now
  abbrev Now : Dict RemoteSpanInfo
  Now = compute_spans module_infos joining

  tried-IsJustified :
      (worst n : ℕ) (span : RemoteSpanInfo) (plan : Plan)
      → worst < length module_infos
      → lookup local_peer_id plan.spans ≡ some span
      → span.end ≡ pos (span.start + n)
      → span.start + n ≤ length module_infos
      → Balanced (length module_infos) Now plan
      → StaysServed (length module_infos) eps balance_quality Now span
      → IsJustified (length module_infos) eps balance_quality Now span (
          try_start shuffle rounds local_peer_id eps balance_quality plan
            (pos (1000 * share_of_all (length module_infos) worst Now))
            span
            (best_start_for (take_out span plan.throughputs) (span_length span)))
  tried-IsJustified worst n span plan within found e le balanced served =
      let total = length module_infos in
      let (new_start, chosen, room) =
        best_start_for-Fits total Now span n plan.throughputs e le balanced.0.0 in
      let moved = settle local_peer_id span new_start plan in
      rw chosen (elim (Bool-cases (span.start == new_start)) [
        | inl stays ↦ rw stays tt
        | inr moves ↦
            subst
              (λ c. IsJustified total eps balance_quality Now span (
                if c
                then returns false
                else judge (pos (1000 * share_of_all total worst Now)) eps balance_quality
                    (rebalance shuffle rounds 0 moved)))
              (sym moves)
              (judge-IsJustified total eps balance_quality Now span worst
                (rebalance shuffle rounds 0 moved) within served shuffle shuffles
                (rebalance-Balanced shuffle shuffles total Now rounds 0 moved (
                  settle-Balanced total Now local_peer_id n new_start span plan found e room
                    balanced)))
      ])

  -- Where all spans lie in the swarm, the local server has one and the quality asked for is at most 1,
  -- the call never raises, whatever the orders in which the servers are visited. When the answer is to
  -- move, every block is served without the server too if every block has a throughput above 1e-3, and
  -- the same servers, with as many blocks each, can be arranged so that the throughput of some block now
  -- is below that of every block then, times the quality less a thousandth.
  pub should_choose_other_blocks-IsJustified :
      (span : RemoteSpanInfo)
      → balance_quality ≤ 1000
      → 0 < length module_infos
      → lookup local_peer_id Now ≡ some span
      → AllFit (length module_infos) Now
      → IsJustified
          (length module_infos)
          eps
          balance_quality
          Now
          span
          (should_choose_other_blocks shuffle rounds local_peer_id eps balance_quality module_infos)
  unfolding should_choose_other_blocks
  should_choose_other_blocks-IsJustified span low some_blocks found fit =
      let total = length module_infos in
      let plan = start_plan shuffle rounds local_peer_id eps balance_quality module_infos in
      let below : ltb 1000 balance_quality ≡ false = ground arith in
      let right = compute_throughputs-Accounts Now total in
      let (worst, within, initial, _) = Least-share total plan.throughputs Now some_blocks right in
      let (n, e, le) = AllFit-lookup total local_peer_id Now fit found in
      let (least, is_least, least_below) = some-Least (take_out span plan.throughputs) (
        omega (
          arith,
          some_blocks,
          right.0,
          length-add_span span (neg (1001 * throughput span)) plan.throughputs,
        )) in
      rw (below, initial, found, is_least)
        (elim (Bool-cases
          (ltb_ℤ (pos eps) (pos (1000 * share_of_all total worst Now)) && leb_ℤ least (pos 0))) [
            | inl disjoint ↦ rw disjoint tt
            | inr guard ↦ rw guard (
                tried-IsJustified worst n span plan within found e le
                  (right, fit, Rearranged-refl Now)
                  (stays_served total Now span plan.throughputs eps balance_quality worst least
                    within right least_below guard))
          ])
