-- ===== src/Consensus/Attest/Safety.antt =====
-- When `attest` sends its transaction, and when it says that it succeeded.
use mathlib.Core.Path.{subst}
use subnet_llm_template.Prelude.{
  ℕ, ◌≡◌, ◌≢◌, ◌⊎◌, refl, Bool, true, false, ◌&&◌, Option, none, some, List, ◌∷◌, arith,
  if◌then◌else◌, Bool-cases, inl, inr,
}
use subnet_llm_template.Prelude.Int.{pos, ◌-ℤ◌}
use subnet_llm_template.Exec.{continue_with, ◌>>◌, Result, ok, raised, Exec, pure, ◌>>=◌, caught}
use subnet_llm_template.Exec.Keeps.{
  Keeps, Keeps-pure, Keeps-raise, Keeps-if, Keeps-try_or, Keeps-bind,
}
use subnet_llm_template.Consensus.Data.{RewardsData, set_eq, symmetric_difference}
use subnet_llm_template.Consensus.Chain.{
  Chain, Node, State, Submission, RewardEvent, absent, pair, event, on_chain, node, update,
  Transaction, attestation,
}
use subnet_llm_template.Consensus.Attest.{
  check_submittable, should_attest, is_empty, judge, compare_previous, compare_onchain,
  compare_entries, attributes, get_reward_result, get_validator_consensus_submission, AttestReason,
  attested, attest_failed, attest, attest_submission, attest_if, has_account, do_attest,
  get_consensus_data,
}
use subnet_llm_template.Consensus.Attest.Judgement.{Explained, should_attest_iff}

abbrev pub sent_of : {W : Type 0} → State W → List Transaction
sent_of s = s.sent

module _ {W : Type 0} where
  pub node-Keeps : Keeps sent_of (node {World = W})
  node-Keeps = record { at = λ s. refl }

  pub update-Keeps : (f : Node → Node) → Keeps sent_of (update {World = W} f)
  update-Keeps f = record { at = λ s. refl }

pub on_chain-Keeps : {W A : Type 0} (m : Exec W A) → Keeps sent_of (on_chain m)
on_chain-Keeps m = record { at = λ s. refl }

pub ruleset silent = (
  node-Keeps, update-Keeps, on_chain-Keeps, Keeps-pure, Keeps-raise, Keeps-if, Keeps-try_or,
  Keeps-bind,
)

module _ (chain : Chain) where
  attributes-Keeps : (e : RewardEvent) → Keeps sent_of (attributes {S = State chain.World} e)
  attributes-Keeps absent = search silent
  attributes-Keeps (pair a b) = search silent
  attributes-Keeps (event a b) = search silent

  get_reward_result-Keeps : (epoch : ℕ) → Keeps sent_of (get_reward_result chain epoch)
  unfolding get_reward_result
  get_reward_result-Keeps epoch =
      Keeps-try_or sent_of _ _
        (Keeps-bind sent_of _ _ node-Keeps (λ self.
          Keeps-bind sent_of _ _
            (on_chain-Keeps (chain.get_reward_result_event self.subnet_id epoch))
            (λ e. attributes-Keeps e)))
        (Keeps-pure sent_of none)

  compare_onchain-Keeps :
      (submission : Submission) (dif : List RewardsData) (o : Option (ℕ × ℕ))
      → Keeps sent_of (compare_onchain chain submission dif o)
  compare_onchain-Keeps submission dif none = Keeps-raise sent_of
  compare_onchain-Keeps submission dif (some p) =
      Keeps-if sent_of _ _ _ (Keeps-pure sent_of false) (go submission.entries)
    where
      go : (o : Option (List RewardsData)) → Keeps sent_of (compare_entries chain o dif)
      go none = Keeps-raise sent_of
      go (some es) = Keeps-pure sent_of _

  compare_previous-Keeps :
      (o : Option Submission) (dif : List RewardsData) (epoch : ℕ)
      → Keeps sent_of (compare_previous chain o dif epoch)
  compare_previous-Keeps none dif epoch = Keeps-pure sent_of false
  compare_previous-Keeps (some submission) dif epoch =
      Keeps-bind sent_of _ _ (get_reward_result-Keeps epoch)
        (λ o. compare_onchain-Keeps submission dif o)

  judge-Keeps :
      (b : Bool) (previous : Option (List RewardsData)) (dif : List RewardsData) (epoch : ℕ)
      → Keeps sent_of (judge chain b previous dif epoch)
  unfolding get_validator_consensus_submission
  judge-Keeps true previous dif epoch = Keeps-pure sent_of true
  judge-Keeps false (some kept) dif epoch = Keeps-pure sent_of _
  judge-Keeps false none dif epoch =
      Keeps-bind sent_of _ _
        (Keeps-bind sent_of _ _ node-Keeps (λ self.
          on_chain-Keeps (chain.get_rewards_submission self.subnet_id (pos epoch -ℤ pos 1))))
        (λ o. compare_previous-Keeps o dif epoch)

  pub should_attest-Keeps :
      (v m : List RewardsData) (epoch : ℕ) → Keeps sent_of (should_attest chain v m epoch)
  unfolding should_attest
  should_attest-Keeps v m epoch =
      Keeps-if sent_of (is_empty v && is_empty m) (pure true) _ (Keeps-pure sent_of true) (
        Keeps-bind sent_of node _ node-Keeps (λ self.
          Keeps-bind sent_of
            (judge chain (set_eq v m) self.previous_epoch_data (symmetric_difference v m) epoch)
            (λ success. update (λ n. record n { previous_epoch_data = some m }) >> pure success)
            (judge-Keeps (set_eq v m) self.previous_epoch_data (symmetric_difference v m) epoch)
            (λ b.
              Keeps-bind sent_of (update (λ n. record n { previous_epoch_data = some m })) _
                (update-Keeps (λ n. record n { previous_epoch_data = some m }))
                (λ _. Keeps-pure sent_of b))))

  -- `attest` sent its transaction for good reasons: the epoch's submission, which this node had not
  -- attested, agrees with the node's own scores up to the kept ones.
  abbrev pub Justified : ℕ → Bool → List RewardsData → State chain.World → Type 0
  Justified epoch wanted kept s =
      (submission : Submission) × (scores : List RewardsData) × (w w' : chain.World)
      × (chain.get_rewards_submission s.node.subnet_id (pos epoch) s.world
          ≡ (ok (some submission), w))
      × (chain.get_consensus_data s.node.subnet_id w ≡ (ok scores, w'))
      × (has_account s.node.account_id submission.attests ≡ false)
      × Explained submission.scores scores kept
      × (wanted ≡ true)

  -- The transaction was sent once, or not at all.
  abbrev pub Sends :
      (old : List Transaction) → Type 0 → Result (Bool × AttestReason) × State chain.World → Type 0
  Sends old Reason (r, t) =
      ((t.sent ≡ old) × ((reason : AttestReason) → r ≢ ok (true, reason)))
      ⊎ ((t.sent ≡ attestation ∷ old) × Reason)

  attest_if-Sends :
      (b : Bool) (Reason : Type 0) (s : State chain.World)
      → (b ≡ true → Reason)
      → Sends s.sent Reason (attest_if chain b s)
  unfolding do_attest
  attest_if-Sends false Reason s why = inl (refl, λ reason e. ground arith)
  attest_if-Sends true Reason s why =
      let (r, w) = chain.attest s.node.subnet_id s.world in
      go r (record s { world = w; sent = attestation ∷ s.sent }) refl
    where
      go :
          (r : Result Bool) (t : State chain.World)
          → t.sent ≡ attestation ∷ s.sent
          → Sends s.sent Reason (
              continue_with
                (caught r (pure false) t).0
                (λ success. pure (if success then (true, attested) else (false, attest_failed)))
                (caught r (pure false) t).1)
      go (ok b) t e = inr (e, why refl)
      go raised t e = inr (e, why refl)

  Sends-at :
      (old old' : List Transaction) (Reason : Type 0)
      (p : Result (Bool × AttestReason) × State chain.World)
      → old' ≡ old
      → Sends old' Reason p
      → Sends old Reason p
  Sends-at old old' Reason p e h = subst (λ o. Sends o Reason p) e h

  module _ (epoch : ℕ) (wanted : Bool) (kept : List RewardsData) (s : State chain.World)
      (has_kept : s.node.previous_epoch_data ≡ some kept) where
    after_judgement :
        (b : Bool) (Reason : Type 0) (r : Result Bool) (t : State chain.World)
        → t.sent ≡ s.sent
        → (r ≡ ok true → wanted ≡ true → Reason)
        → Sends s.sent Reason (continue_with r (λ should. attest_if chain (should && wanted)) t)
    after_judgement b Reason raised t e why = inl (e, λ reason q. cc)
    after_judgement b Reason (ok should) t e why =
        Sends-at s.sent t.sent Reason (attest_if chain (should && wanted) t) e
          (attest_if-Sends (should && wanted) Reason t (λ h. why (ground arith) (ground arith)))

    after_scores :
        (submission : Submission) (w : chain.World) (r : Result (List RewardsData))
        (w' : chain.World)
        → chain.get_rewards_submission s.node.subnet_id (pos epoch) s.world
          ≡ (ok (some submission), w)
        → has_account s.node.account_id submission.attests ≡ false
        → chain.get_consensus_data s.node.subnet_id w ≡ (r, w')
        → Sends s.sent (Justified epoch wanted kept s) (
            continue_with r
              (λ scores.
                check_submittable chain true wanted
                >> (should_attest chain submission.scores scores epoch >>= λ should.
                    attest_if chain (should && wanted)))
              (record s { world = w' }))
    after_scores submission w raised w' q fresh d = inl (refl, λ reason e. cc)
    after_scores submission w (ok scores) w' q fresh d =
        after_judgement true _ judged.0 judged.1
          ((should_attest-Keeps submission.scores scores epoch).at (record s { world = w' }))
          (λ e want. (
            submission,
            scores,
            w,
            w',
            q,
            d,
            fresh,
            (should_attest_iff chain submission.scores scores kept epoch (record s { world = w' })
                  has_kept).0
                e,
            want,
          ))
      where
        judged : Result Bool × State chain.World
        judged = should_attest chain submission.scores scores epoch (record s { world = w' })

    after_submission :
        (r : Result (Option Submission)) (w : chain.World)
        → chain.get_rewards_submission s.node.subnet_id (pos epoch) s.world ≡ (r, w)
        → Sends s.sent
            (Justified epoch wanted kept s)
            (continue_with r (attest_submission chain epoch wanted) (record s { world = w }))
    unfolding get_consensus_data
    after_submission raised w q = inl (refl, λ reason e. cc)
    after_submission (ok none) w q = inl (refl, λ reason e. ground arith)
    after_submission (ok (some submission)) w q =
        elim (Bool-cases (has_account s.node.account_id submission.attests)) [
          | inl done ↦ rw done (inl (refl, λ reason e. ground arith))
          | inr fresh ↦ rw fresh (
              let (r, w') = chain.get_consensus_data s.node.subnet_id w in
              after_scores submission w r w' q fresh refl)
        ]

    -- A node that has kept scores sends at most one transaction when it attests. It sends none, and
    -- does not report success, unless the attestation is wanted, the epoch's submission is there
    -- without an attestation of this node, and the submission's scores differ from the node's own at
    -- most in entries that were kept.
    pub attest-Justified :
        Sends s.sent (Justified epoch wanted kept s) (attest chain epoch wanted s)
    unfolding attest
    attest-Justified =
        let (r, w) = chain.get_rewards_submission s.node.subnet_id (pos epoch) s.world in
        after_submission r w refl
