-- ===== src/Consensus/Attest/Judgement.antt =====
-- `should_attest` against what it is for: the validator's scores are right up to nodes that came
-- or went since the scores that this node kept.
use subnet_llm_template.Prelude.{
  ℕ, ◌≡◌, ◌≢◌, ◌↔◌, refl, Bool, true, false, ◌&&◌, none, some, List, [], ◌∷◌, if◌then◌else◌,
  Bool-cases, inl, inr,
}
use subnet_llm_template.Prelude.Int.{pos, ◌-ℤ◌}
use subnet_llm_template.Exec.{ok, raised}
use subnet_llm_template.Consensus.Data.{
  RewardsData, member, issubset, set_eq, symmetric_difference, set_eq_iff,
  issubset-symmetric_difference_iff,
}
use subnet_llm_template.Consensus.Chain.{Chain, State, Submission, RewardEvent, absent, pair, event}
use subnet_llm_template.Consensus.Attest.{should_attest, is_empty}

-- Every entry on which the two lists differ is in the scores that were kept.
abbrev pub Explained : List RewardsData → List RewardsData → List RewardsData → Type 0
Explained validator_data my_data kept =
    (x : RewardsData) → member x validator_data ≢ member x my_data → member x kept ≡ true

ok-injective : {a b : Bool} → ok a ≡ ok b → a ≡ b
ok-injective h = cc

some_data :
    (v m kept : List RewardsData)
    → ((if set_eq v m then true else issubset (symmetric_difference v m) kept) ≡ true)
      ↔ Explained v m kept
some_data v m kept = elim (Bool-cases (set_eq v m)) [
  | inl equal ↦ rw equal (λ h x ne. absurd (ne ((set_eq_iff v m).0 equal x)), λ h. refl)
  | inr other ↦ rw other (issubset-symmetric_difference_iff v m kept)
]

verdict_iff :
    (v m kept : List RewardsData)
    → ((if is_empty v && is_empty m
          then true
          else if set_eq v m
          then true
          else issubset (symmetric_difference v m) kept)
        ≡ true)
      ↔ Explained v m kept
verdict_iff [] [] kept = (λ h x ne. absurd (ne refl), λ h. refl)
verdict_iff [] (y ∷ m) kept = some_data [] (y ∷ m) kept
verdict_iff (y ∷ v) m kept = some_data (y ∷ v) m kept

data_given : (v m : List RewardsData) → set_eq v m ≡ false → (is_empty v && is_empty m) ≡ false
unfolding set_eq
data_given [] [] h = cc
data_given [] (y ∷ m) h = refl
data_given (y ∷ v) m h = refl

module _ (chain : Chain) where
  -- The value of `should_attest` where scores have been kept.
  verdict :
      (v m kept : List RewardsData) (epoch : ℕ) (s : State chain.World)
      → s.node.previous_epoch_data ≡ some kept
      → (should_attest chain v m epoch s).0
        ≡ ok (
            if is_empty v && is_empty m
            then true
            else if set_eq v m
            then true
            else issubset (symmetric_difference v m) kept)
  unfolding should_attest
  verdict v m kept epoch s e = elim (Bool-cases (is_empty v && is_empty m)) [
    | inl none_at_all ↦ rw none_at_all refl
    | inr data_given ↦ rw data_given (elim (Bool-cases (set_eq v m)) [
      | inl equal ↦ rw (e, equal) refl
      | inr other ↦ rw (e, other) refl
    ])
  ]

  -- A node that has kept scores accepts the validator's scores exactly when every entry on which
  -- they differ from its own is among the kept ones. In particular order and repetition do not
  -- matter, and equal sets are accepted.
  pub should_attest_iff :
      (v m kept : List RewardsData) (epoch : ℕ) (s : State chain.World)
      → s.node.previous_epoch_data ≡ some kept
      → ((should_attest chain v m epoch s).0 ≡ ok true) ↔ Explained v m kept
  should_attest_iff v m kept epoch s e = (
    λ h. (verdict_iff v m kept).0 (ok-injective (rw (verdict v m kept epoch s e) at h)),
    λ h. rw (verdict v m kept epoch s e, (verdict_iff v m kept).1 h) refl,
  )

  -- Whatever the verdict is, the scores that are kept next are the node's own, except that nothing
  -- changes where both lists are empty. The rest of the node and the transactions stay.
  pub should_attest_keeps :
      (v m kept : List RewardsData) (epoch : ℕ) (s : State chain.World)
      → s.node.previous_epoch_data ≡ some kept
      → (should_attest chain v m epoch s).1 ≡ record s {
        node = record s.node {
          previous_epoch_data = if is_empty v && is_empty m then some kept else some m;
        };
      }
  unfolding should_attest
  should_attest_keeps v m kept epoch s e = elim (Bool-cases (is_empty v && is_empty m)) [
    | inl none_at_all ↦
        rw none_at_all (λ i. record s { node = record s.node { previous_epoch_data = e i } })
    | inr data_given ↦ rw data_given (elim (Bool-cases (set_eq v m)) [
      | inl equal ↦ simp (e, equal) refl
      | inr other ↦ simp (e, other) refl
    ])
  ]

  -- A node that has kept no scores, as after a restart, cannot judge a validator whose scores are
  -- not its own once the epoch before has a submission: `_get_reward_result` reads the pair of
  -- `get_reward_result_event` as if it were the event, so that its result is always `None`, which
  -- `should_attest` unpacks. The exception leaves the node as it was, and it keeps no scores.
  pub fresh_node_raises :
      (v m : List RewardsData) (epoch : ℕ) (s : State chain.World) {submission : Submission}
      {w w' : chain.World} {found : RewardEvent}
      → s.node.previous_epoch_data ≡ none
      → set_eq v m ≡ false
      → chain.get_rewards_submission s.node.subnet_id (pos epoch -ℤ pos 1) s.world
        ≡ (ok (some submission), w)
      → chain.get_reward_result_event s.node.subnet_id epoch w ≡ (ok found, w')
      → ((a b : ℕ) → found ≢ event a b)
      → should_attest chain v m epoch s ≡ (raised, record s { world = w' })
  unfolding should_attest
  fresh_node_raises v m epoch s {found = absent} none_kept other q r pairs =
      rw (data_given v m other) (simp (none_kept, other, q, r) refl)
  fresh_node_raises v m epoch s {found = pair a b} none_kept other q r pairs =
      rw (data_given v m other) (simp (none_kept, other, q, r) refl)
  fresh_node_raises v m epoch s {found = event a b} none_kept other q r pairs =
      absurd (pairs a b refl)
