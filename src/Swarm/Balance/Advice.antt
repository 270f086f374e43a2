-- ===== src/Swarm/Balance/Advice.antt =====
-- What the advice to move rests on.
use mathlib.Core.Path.{subst}
use subnet_llm_template.Prelude.{
  ℕ, zero, suc, ◌+◌, ◌-◌, ◌*◌, ◌≤◌, ◌<◌, ◌≡◌, sym, ◌∙◌, Bool, true, false, ◌||◌, some, List, [],
  ◌∷◌, arith, Bool-cases, inl, inr,
}
use subnet_llm_template.Prelude.Int.{ℤ, pos, ◌-ℤ◌, ◌*ℤ◌, ltb_ℤ}
use subnet_llm_template.Prelude.Dict.{Dict}
use subnet_llm_template.Swarm.Data.{RemoteSpanInfo}
use subnet_llm_template.Swarm.Blocks.Throughputs.{share, share_of_all}
use subnet_llm_template.Swarm.Balance.{
  Call, raises, unfinished, returns, Plan, min_from, min_of, keys, judge, rebalance,
}
use subnet_llm_template.Swarm.Balance.Accounts.{Accounts}
use subnet_llm_template.Swarm.Balance.Places.{AllFit, Rearranged, AllIn}
use subnet_llm_template.Swarm.Balance.Rounds.{Balanced, visit_all-Balanced}
use subnet_llm_template.Swarm.Balance.Minimum.{
  Least, min_from-le, least-get_elem?, min_from-get_elem?, quality,
}

-- A shuffled list of the keys of a dict has keys of that dict only.
abbrev pub Shuffles : (ℕ → List ℕ → List ℕ) → Type 0
Shuffles shuffle = (n : ℕ) (spans : Dict RemoteSpanInfo) → AllIn (shuffle n (keys spans)) spans

module _ (shuffle : ℕ → List ℕ → List ℕ) (shuffles : Shuffles shuffle) (total : ℕ)
    (start : Dict RemoteSpanInfo) where
  abbrev EndsBalanced : Call Plan → Type 0
  EndsBalanced raises = ⊥
  EndsBalanced unfinished = Unit
  EndsBalanced (returns plan) = Balanced total start plan

  pub rebalance-Balanced :
      (rounds n : ℕ) (plan : Plan)
      → Balanced total start plan
      → EndsBalanced (rebalance shuffle rounds n plan)
  unfolding rebalance
  rebalance-Balanced zero n plan h = tt
  rebalance-Balanced (suc rounds) n plan h =
      let (next, returned, balanced) =
        visit_all-Balanced total start (shuffle n (keys plan.spans)) (record plan { moved = false })
          (shuffles n plan.spans) h in
      rw returned (elim (Bool-cases next.moved) [
        | inl more ↦ rw more (rebalance-Balanced rounds (n + 1) next balanced)
        | inr over ↦ rw over balanced
      ])

-- The minimum of an array that is right is the least throughput of a block.
pub Least-share :
    (total : ℕ) (xs : List ℤ) (spans : Dict RemoteSpanInfo)
    → 0 < total
    → Accounts total xs spans
    → (block : ℕ) × (block < total)
      × (min_of xs ≡ some (pos (1000 * share_of_all total block spans)))
      × Least (pos (1000 * share_of_all total block spans)) xs
Least-share total [] spans some_blocks (e, right) = absurd (omega arith)
Least-share total (x ∷ xs) spans some_blocks (e, right) =
    let (j, within, found) = min_from-get_elem? x xs in
    let (le, rest) = min_from-le x xs in
    let in_swarm : j < total = omega (arith, within, e) in
    let both : some (min_from x xs) ≡ some (pos (1000 * share_of_all total j spans)) =
      sym found ∙ right j in_swarm in
    let same : min_from x xs ≡ pos (1000 * share_of_all total j spans) = cc in
    (j, in_swarm, both, subst (λ m. Least m (x ∷ xs)) same (le, rest))

mul_mono : (q a b : ℕ) → a ≤ b → q * a ≤ q * b
mul_mono q a b le = grind arith

module _ (total eps balance_quality : ℕ) (start : Dict RemoteSpanInfo)
    (local_span : RemoteSpanInfo) where
  -- The worst block of the start is worse than every block of the arrangement, by more than the
  -- quality that is asked for.
  abbrev IsBetter : Dict RemoteSpanInfo → Type 0
  IsBetter final =
      (worst : ℕ) × (worst < total)
      × ((block : ℕ)
          → block < total
          → 1000 * share_of_all total worst start
            < (balance_quality - 1) * share_of_all total block final)

  -- If every block has a throughput above 1e-3, every block is served without the server too.
  abbrev pub StaysServed : Type 0
  StaysServed =
      ((block : ℕ) → block < total → eps < 1000 * share_of_all total block start)
      → (block : ℕ) → block < total
      → share total block local_span < share_of_all total block start

  abbrev pub IsJustified : Call Bool → Type 0
  IsJustified raises = ⊥
  IsJustified unfinished = Unit
  IsJustified (returns false) = Unit
  IsJustified (returns true) =
      StaysServed
      × (final : Dict RemoteSpanInfo) × Rearranged start final
      × AllFit total final
      × IsBetter final

  pub judge-IsJustified :
      (worst : ℕ) (call : Call Plan)
      → worst < total
      → StaysServed
      → (shuffle : ℕ → List ℕ → List ℕ) (shuffles : Shuffles shuffle)
      → EndsBalanced shuffle shuffles total start call
      → IsJustified (judge (pos (1000 * share_of_all total worst start)) eps balance_quality call)
  judge-IsJustified worst raises within served shuffle shuffles h = absurd h
  judge-IsJustified worst unfinished within served shuffle shuffles h = tt
  judge-IsJustified worst (returns plan) within served shuffle shuffles (right, fit, same) =
      let (block, in_swarm, least, below) =
        Least-share total plan.throughputs plan.spans (omega (arith, within)) right in
      let initial = pos (1000 * share_of_all total worst start) in
      let new = pos (1000 * share_of_all total block plan.spans) in
      rw least (elim (Bool-cases (ltb_ℤ new initial || ltb_ℤ new (pos eps))) [
        | inl less ↦ rw less tt
        | inr more ↦
            rw more
              (elim (Bool-cases
                (ltb_ℤ (pos 1000 *ℤ initial) ((pos balance_quality -ℤ pos 1) *ℤ new))) [
                  | inr bad ↦ rw bad tt
                  | inl good ↦ rw good (
                    served,
                    plan.spans,
                    same,
                    fit,
                    (
                      worst,
                      within,
                      λ j j_within.
                          let gap =
                            quality balance_quality (share_of_all total worst start)
                              (share_of_all total block plan.spans) good in
                          let le =
                            least-get_elem? new (pos (1000 * share_of_all total j plan.spans))
                              plan.throughputs j below (right.1 j j_within) in
                          let mono =
                            mul_mono (balance_quality - 1) (share_of_all total block plan.spans)
                              (share_of_all total j plan.spans) (omega (arith, le)) in
                          omega (arith, gap, mono),
                    ),
                  )
                ])
      ])
