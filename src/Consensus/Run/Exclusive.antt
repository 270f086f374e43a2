-- ===== src/Consensus/Run/Exclusive.antt =====
-- `run` and its roles: validations and attestations in one round.
use subnet_llm_template.Prelude.{
  ℕ, zero, suc, ◌*◌, ◌≡◌, ◌⊎◌, inl, inr, refl, Bool, true, false, ◌&&◌, ◌||◌, not, Option, none,
  some, List, arith, if◌then◌else◌, if-both, ◌==◌, ltb, leb,
}
use subnet_llm_template.Exec.{Exec, Result, ok, raised, pure, continue_with, ◌>>=◌, ◌>>◌}
use subnet_llm_template.Exec.Keeps.{Keeps, Keeps-pure, Keeps-raise, Keeps-if, Keeps-bind}
use subnet_llm_template.Consensus.Chain.{
  Chain, State, SubnetData, Receipt, Transaction, activation, M, on_chain, node, update, send,
}
use subnet_llm_template.Consensus.Attest.{attest, has_account, is_included, get_validator, shutdown}
use subnet_llm_template.Consensus.Attest.Safety.{sent_of, node-Keeps, update-Keeps, on_chain-Keeps}
use subnet_llm_template.Consensus.Run.Adds.{
  More, Adds, Adds-quiet, Adds-if, Adds-weaken, Adds-bind, Adds-then, Adds-activation,
}
use subnet_llm_template.Consensus.Run.{
  epoch_of, remaining_blocks, sleep, with_validator, eligible_round, not_eligible, become_eligible,
  after_activation, iterate,
}
use subnet_llm_template.Consensus.Run.Roles.{
  epoch_of-Keeps, remaining_blocks-Keeps, sleep-Keeps, get_validator-Keeps, is_included-Keeps,
  attest-Adds, as_validator-Adds, as_attestor-Adds,
}
use subnet_llm_template.Consensus.Activate.{
  activate, found_id, found_data, register, take_turn, at_block, wait_if, activate_in_turn,
  send_activation, read_receipt, activate_now, has_event, block_secs, entry_index,
}

-- At most one validation and no attestation, or no validation and at most four attestations.
pub record Exclusive {W A : Type 0} (m : Exec (State W) A) : Type 0 where
  pub at : (s : State W) → More 1 0 s.sent (m s).1.sent ⊎ More 0 4 s.sent (m s).1.sent

module _ {W A : Type 0} where
  Exclusive-validating : (m : Exec (State W) A) → Adds 1 0 m → Exclusive m
  Exclusive-validating m a = record { at = λ s. inl (a.at s) }

  Exclusive-attesting : (m : Exec (State W) A) → Adds 0 4 m → Exclusive m
  Exclusive-attesting m a = record { at = λ s. inr (a.at s) }

  Exclusive-if :
      (b : Bool) (m n : Exec (State W) A)
      → Exclusive m
      → Exclusive n
      → Exclusive (if b then m else n)
  Exclusive-if b m n h k = if-both Exclusive b m n h k

module _ {W A B : Type 0} where
  Exclusive-continue :
      (r : Result A) (f : A → Exec (State W) B) (old : List Transaction) (t : State W)
      → ((a : A) → Exclusive (f a))
      → t.sent ≡ old
      → More 1 0 old (continue_with r f t).1.sent ⊎ More 0 4 old (continue_with r f t).1.sent
  Exclusive-continue (ok a) f old t h e = rw (← e) ((h a).at t)
  Exclusive-continue raised f old t h e =
      rw e (inl (omega arith, omega arith, omega arith, omega arith))

  Exclusive-then :
      (m : Exec (State W) A) (f : A → Exec (State W) B)
      → Keeps sent_of m
      → ((a : A) → Exclusive (f a))
      → Exclusive (m >>= f)
  Exclusive-then m f k h = record {
    at = λ s. let (r, t) = m s in Exclusive-continue r f s.sent t h (k.at s);
  }

module _ (chain : Chain) where
  activate_now-Keeps : (id n : ℕ) → Keeps sent_of (activate_now chain id n)
  activate_now-Keeps id n = record { at = λ s. refl }

  read_receipt-Keeps : (id : ℕ) (o : Option Receipt) → Keeps sent_of (read_receipt chain id o)
  read_receipt-Keeps id none = Keeps-pure sent_of false
  read_receipt-Keeps id (some receipt) =
      Keeps-if sent_of (receipt.is_success && has_event receipt.triggered_events) _ _
        (activate_now-Keeps id 1) (Keeps-pure sent_of false)

  send_activation-Adds : (id : ℕ) (o : Option SubnetData) → Adds 0 0 (send_activation chain id o)
  send_activation-Adds id none = Adds-quiet 0 0 _ (Keeps-raise sent_of)
  send_activation-Adds id (some subnet_data) =
      Adds-if 0 0 (ltb 0 subnet_data.activated) _ _ (Adds-quiet 0 0 _ (activate_now-Keeps id 1)) (
        Adds-bind 0 0 0 0 (send (activation id)) _ (Adds-activation id) (λ _. Adds-quiet 0 0 _ (
          Keeps-bind sent_of (on_chain (chain.activate_subnet id)) _
            (on_chain-Keeps (chain.activate_subnet id)) (λ o. read_receipt-Keeps id o))))

  module _ (again : M chain.World Bool) (id : ℕ) (h : Adds 0 0 again) where
    wait_if-Adds : (b : Bool) (seconds : ℕ) → Adds 0 0 (wait_if chain b seconds again)
    wait_if-Adds b seconds =
        Adds-if 0 0 b _ _
          (Adds-then 0 0 (sleep chain seconds) _ (sleep-Keeps chain seconds)
            (λ _. Adds-bind 0 0 0 0 again _ h (λ _. Adds-quiet 0 0 _ (Keeps-pure sent_of tt))))
          (Adds-quiet 0 0 _ (Keeps-pure sent_of tt))

    activate_in_turn-Adds : (early late : Bool) → Adds 0 0 (activate_in_turn chain id early late)
    activate_in_turn-Adds early late =
        Adds-if 0 0 (not early && not late) _ _
          (Adds-then 0 0 (on_chain (chain.get_subnet_data id)) _
            (on_chain-Keeps (chain.get_subnet_data id)) (λ o. send_activation-Adds id o))
          (Adds-quiet 0 0 _ (Keeps-pure sent_of false))

    waits-Adds :
        (early late : Bool) (delta : ℕ)
        → Adds 0 0 (do
          wait_if chain early delta again
          wait_if chain late block_secs again
          activate_in_turn chain id early late)
    waits-Adds early late delta =
        Adds-bind 0 0 0 0 (wait_if chain early delta again) _ (wait_if-Adds early delta) (λ _.
          Adds-bind 0 0 0 0 (wait_if chain late block_secs again) _ (wait_if-Adds late block_secs)
            (λ _. activate_in_turn-Adds early late))

    take_turn-Adds : (start : ℕ) (p : Bool × ℕ) → Adds 0 0 (take_turn chain again id start p)
    take_turn-Adds start (b, n) =
        Adds-bind 0 0 0 0 (wait_if chain (not b) block_secs again) _
          (wait_if-Adds (not b) block_secs)
          (λ _.
            Adds-then 0 0 (on_chain chain.get_block_number) (at_block chain again id start n)
              (on_chain-Keeps chain.get_block_number) (λ block. waits-Adds _ _ _))

    register-Adds : (d : SubnetData) → Adds 0 0 (register chain again id d)
    register-Adds d =
        Adds-if 0 0 (ltb 0 d.activated) _ _ (Adds-quiet 0 0 _ (activate_now-Keeps id d.activated)) (
          Adds-then 0 0 node _ node-Keeps (λ self.
            Adds-then 0 0 (on_chain (chain.get_submittable_nodes (some id))) _
              (on_chain-Keeps (chain.get_submittable_nodes (some id)))
              (λ nodes. take_turn-Adds _ (entry_index self.account_id nodes 0))))

    found_data-Adds : (o : Option SubnetData) → Adds 0 0 (found_data chain again id o)
    found_data-Adds none = Adds-quiet 0 0 _ stops
      where
        stops : Keeps sent_of (found_data chain again id none)
        stops = unfold shutdown in record { at = λ s. refl }
    found_data-Adds (some d) = register-Adds d

  found_id-Adds :
      (again : M chain.World Bool) (o : Option ℕ)
      → Adds 0 0 again
      → Adds 0 0 (found_id chain again o)
  found_id-Adds again none h = Adds-quiet 0 0 _ stops
    where
      stops : Keeps sent_of (found_id chain again none)
      stops = unfold shutdown in record { at = λ s. refl }
  found_id-Adds again (some id) h =
      Adds-then 0 0 (on_chain (chain.get_subnet_data id)) _
        (on_chain-Keeps (chain.get_subnet_data id)) (λ o. found_data-Adds again id h o)

  -- Activating sends neither a validation nor an attestation, however often it calls itself.
  activate-Adds : (depth : ℕ) → Adds 0 0 (activate chain depth)
  unfolding activate
  activate-Adds zero = Adds-quiet 0 0 _ (Keeps-raise sent_of)
  activate-Adds (suc depth) =
      Adds-then 0 0 (on_chain chain.get_subnet_id_by_path) _
        (on_chain-Keeps chain.get_subnet_id_by_path)
        (λ o. found_id-Adds (activate chain depth) o (activate-Adds depth))

  after_activation-Keeps : (b : Bool) → Keeps sent_of (after_activation chain b)
  after_activation-Keeps b = Keeps-bind sent_of node _ node-Keeps (λ self.
      Keeps-if sent_of (self.stop || b) _ _ (Keeps-pure sent_of tt) (sleep-Keeps chain block_secs))

  with_validator-Exclusive :
      (epoch remaining : ℕ) (o : Option ℕ) → Exclusive (with_validator chain epoch remaining o)
  with_validator-Exclusive epoch remaining none =
      Exclusive-attesting _ (Adds-quiet 0 4 _ (sleep-Keeps chain block_secs))
  with_validator-Exclusive epoch remaining (some validator) =
      Exclusive-then node _ node-Keeps (λ self.
        Exclusive-if (validator == self.account_id) _ _
          (Exclusive-validating _ (as_validator-Adds chain epoch remaining))
          (Exclusive-attesting _ (as_attestor-Adds chain epoch)))

  eligible_round-Exclusive :
      (epoch remaining : ℕ) → Exclusive (eligible_round chain epoch remaining)
  eligible_round-Exclusive epoch remaining =
      Exclusive-then (get_validator chain epoch) _ (get_validator-Keeps chain epoch)
        (λ o. with_validator-Exclusive epoch remaining o)

  not_eligible-Adds : (epoch remaining : ℕ) → Adds 0 1 (not_eligible chain epoch remaining)
  not_eligible-Adds epoch remaining =
      Adds-then 0 1 (is_included chain) _ (is_included-Keeps chain) (λ included.
        Adds-bind 0 1 0 0 (if included then (do attest chain epoch false; pure tt) else pure tt) _
          (Adds-if 0 1 included _ _
            (Adds-bind 0 1 0 0 (attest chain epoch false) _ (attest-Adds chain epoch false)
              (λ _. Adds-quiet 0 0 _ (Keeps-pure sent_of tt)))
            (Adds-quiet 0 1 _ (Keeps-pure sent_of tt)))
          (λ _. Adds-quiet 0 0 _ (sleep-Keeps chain (remaining * block_secs))))

  become_eligible-Exclusive :
      (epoch remaining : ℕ) → Exclusive (become_eligible chain epoch remaining)
  become_eligible-Exclusive epoch remaining = Exclusive-then node _ node-Keeps (λ self.
      Exclusive-then (on_chain (chain.get_submittable_nodes self.subnet_id)) _
        (on_chain-Keeps (chain.get_submittable_nodes self.subnet_id))
        (λ nodes.
          Exclusive-if (has_account self.account_id nodes) _ _
            (Exclusive-then (update (λ n. record n { subnet_node_eligible = true })) _
              (update-Keeps (λ n. record n { subnet_node_eligible = true }))
              (λ _. eligible_round-Exclusive epoch remaining))
            (Exclusive-attesting _ (
              Adds-weaken 0 1 0 4 _ (omega arith) (omega arith)
                (not_eligible-Adds epoch remaining)))))

  -- One round of the loop sends at most one validation and no attestation, or no validation and at
  -- most four attestations, whatever the chain answers and however the round ends.
  pub iterate-Exclusive : (depth : ℕ) → Exclusive (iterate chain depth)
  unfolding iterate
  iterate-Exclusive depth =
      Exclusive-then (on_chain chain.get_block_number) _ (on_chain-Keeps chain.get_block_number)
        (λ block. Exclusive-then (epoch_of chain block) _ (epoch_of-Keeps chain block) (λ epoch.
          Exclusive-then (remaining_blocks chain block) _ (remaining_blocks-Keeps chain block)
            (λ remaining. Exclusive-then node _ node-Keeps (λ self.
              Exclusive-if
                (leb epoch self.last_validated_or_attested_epoch && self.subnet_accepting_consensus)
                _ _
                (Exclusive-attesting _
                  (Adds-quiet 0 4 _ (sleep-Keeps chain (remaining * block_secs))))
                (Exclusive-if (not self.subnet_accepting_consensus) _ _
                  (Exclusive-attesting _ (
                    Adds-weaken 0 0 0 4 _ (omega arith) (omega arith) (
                      Adds-bind 0 0 0 0 (activate chain depth) _ (activate-Adds depth)
                        (λ b. Adds-quiet 0 0 _ (after_activation-Keeps b)))))
                  (Exclusive-if self.subnet_node_eligible _ _
                    (eligible_round-Exclusive epoch remaining)
                    (become_eligible-Exclusive epoch remaining)))))))
