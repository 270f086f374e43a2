-- ===== src/Consensus/Run/Waiting.antt =====
-- How the loop of `run` ends in which a node waits for the validator.
use subnet_llm_template.Prelude.{
  ℕ, zero, suc, ◌+◌, ◌≤◌, ◌≡◌, ◌≢◌, refl, true, false, ◌||◌, arith, ltb, if◌then◌else◌, Bool-cases,
  inl, inr,
}
use subnet_llm_template.Exec.{Exec, Result, ok, raised, pure, continue_with, ◌>>=◌}
use subnet_llm_template.Consensus.Chain.{Chain, State, on_chain}
use subnet_llm_template.Consensus.Attest.{attest}
use subnet_llm_template.Consensus.Run.{
  Round, again, finished, attest_round, attest_loop, go_on, max_attest_checks, epoch_of,
  remaining_blocks, after_attest, sleep, block_secs,
}

-- An action that never asks for another round.
record Ends {W : Type 0} (m : Exec (State W) Round) : Type 0 where
  at : (s : State W) → (m s).0 ≢ ok again

module _ {W : Type 0} where
  Ends-continue :
      {A : Type 0} (r : Result A) (f : A → Exec (State W) Round) (t : State W)
      → ((a : A) → Ends (f a))
      → (continue_with r f t).0 ≢ ok again
  Ends-continue (ok a) f t h = (h a).at t
  Ends-continue raised f t h = λ e. cc

  Ends-bind :
      {A : Type 0} (m : Exec (State W) A) (f : A → Exec (State W) Round)
      → ((a : A) → Ends (f a))
      → Ends (m >>= f)
  Ends-bind m f h = record { at = λ s. let (r, t) = m s in Ends-continue r f t h }

module _ (chain : Chain) where
  attest_round-Ends :
      (initial_epoch checks : ℕ)
      → ltb max_attest_checks checks ≡ true
      → Ends (attest_round chain initial_epoch checks)
  unfolding attest_round
  attest_round-Ends initial checks late = Ends-bind (sleep chain block_secs) _ (λ _.
      Ends-bind (on_chain chain.get_block_number) _ (λ block.
        Ends-bind (epoch_of chain block) _ (λ epoch.
          Ends-bind (remaining_blocks chain block) _ (λ remaining. stops epoch remaining))))
    where
      stops :
          (epoch remaining : ℕ)
          → Ends (
              if ltb initial epoch || ltb max_attest_checks checks
              then pure finished
              else (do result ← attest chain epoch true; after_attest chain epoch remaining result))
      stops epoch remaining = record {
        at = λ s. elim (Bool-cases (ltb initial epoch)) [
          | inl past ↦ rw past (λ e. cc)
          | inr now ↦ rw (now, late) (λ e. cc)
        ];
      }

  go_on-ends :
      (rounds initial checks : ℕ) (r : Result Round) (t : State chain.World)
      → (r ≡ ok again → (attest_loop chain rounds initial checks t).0 ≢ ok false)
      → (continue_with r (go_on chain (attest_loop chain rounds initial checks)) t).0 ≢ ok false
  go_on-ends rounds initial checks (ok again) t h = h refl
  go_on-ends rounds initial checks (ok finished) t h = λ e. cc
  go_on-ends rounds initial checks raised t h = λ e. cc

  loop-ends :
      (rounds initial checks : ℕ) (s : State chain.World)
      → 5 ≤ rounds + checks
      → checks ≤ 4
      → (attest_loop chain rounds initial checks s).0 ≢ ok false
  unfolding attest_loop
  loop-ends zero initial checks s enough few = absurd (omega arith)
  loop-ends (suc rounds) initial checks s enough few =
      let (r, t) = attest_round chain initial checks s in
      go_on-ends rounds initial (checks + 1) r t (λ e.
        elim (Bool-cases (ltb max_attest_checks checks)) [
          | inl late ↦ absurd ((attest_round-Ends initial checks late).at s e)
          | inr early ↦ loop-ends rounds initial (checks + 1) t (omega arith) (ground arith)
        ])

  -- The waiting loop ends within five rounds, by success, by the next epoch, after its attempts or
  -- by an exception, whatever the chain answers.
  pub attest_loop_ends :
      (rounds initial_epoch : ℕ) (s : State chain.World)
      → 5 ≤ rounds
      → (attest_loop chain rounds initial_epoch 0 s).0 ≢ ok false
  attest_loop_ends rounds initial s enough =
      loop-ends rounds initial 0 s (omega arith) (omega arith)
