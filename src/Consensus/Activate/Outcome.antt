-- ===== src/Consensus/Activate/Outcome.antt =====
-- What `_activate_subnet` has done when it returns True.
use subnet_llm_template.Consensus.Attest.{shutdown}
use subnet_llm_template.Prelude.{
  ℕ, zero, suc, ◌≡◌, ◌<◌, refl, arith, Bool-cases, inl, inr, Bool, true, false, ◌&&◌, not, Option,
  none, some, if◌then◌else◌, if-both, ltb,
}
use subnet_llm_template.Exec.{Result, ok, raised, Exec, pure, raise, continue_with, ◌>>=◌, ◌>>◌}
use subnet_llm_template.Consensus.Chain.{
  node, Chain, State, SubnetData, Receipt, M, on_chain, send, activation,
}
use subnet_llm_template.Consensus.Activate.{
  wait_if, at_block, activate_in_turn, activate, found_id, found_data, register, take_turn,
  send_activation, read_receipt, activate_now, has_event, block_secs, entry_index,
}

-- If the call returned True, the node accepts consensus, has the subnet's id, and sees the subnet as
-- activated.
abbrev HasSubnet : {W : Type 0} → ℕ → Result Bool × State W → Type 0
HasSubnet id (r, t) =
    r ≡ ok true
    → (t.node.subnet_accepting_consensus ≡ true)
      × (t.node.subnet_id ≡ some id)
      × (0 < t.node.subnet_activated)

record Activates {W : Type 0} (id : ℕ) (m : Exec (State W) Bool) : Type 0 where
  at : (s : State W) → HasSubnet id (m s)

module _ {W : Type 0} (id : ℕ) where
  Activates-raise : Activates {W = W} id raise
  Activates-raise = record { at = λ s h. cc }

  Activates-false : Activates {W = W} id (pure false)
  Activates-false = record { at = λ s h. cc }

  Activates-if :
      (b : Bool) (m n : Exec (State W) Bool)
      → Activates id m
      → Activates id n
      → Activates id (if b then m else n)
  Activates-if b m n h k = if-both (Activates id) b m n h k

  HasSubnet-continue :
      {A : Type 0} (r : Result A) (f : A → Exec (State W) Bool) (t : State W)
      → ((a : A) → Activates id (f a))
      → HasSubnet id (continue_with r f t)
  HasSubnet-continue (ok a) f t h = (h a).at t
  HasSubnet-continue raised f t h = λ e. cc

  Activates-bind :
      {A : Type 0} (m : Exec (State W) A) (f : A → Exec (State W) Bool)
      → ((a : A) → Activates id (f a))
      → Activates id (m >>= f)
  Activates-bind m f h = record { at = λ s. let (r, t) = m s in HasSubnet-continue r f t h }

module _ (chain : Chain) where
  activate_now-Activates : (id n : ℕ) → 0 < n → Activates id (activate_now chain id n)
  activate_now-Activates id n some_block = record { at = λ s e. (refl, refl, some_block) }

  read_receipt-Activates : (id : ℕ) (o : Option Receipt) → Activates id (read_receipt chain id o)
  read_receipt-Activates id none = Activates-false id
  read_receipt-Activates id (some receipt) =
      Activates-if id (receipt.is_success && has_event receipt.triggered_events) _ _
        (activate_now-Activates id 1 (omega arith)) (Activates-false id)

  send_activation-Activates :
      (id : ℕ) (o : Option SubnetData) → Activates id (send_activation chain id o)
  send_activation-Activates id none = Activates-raise id
  send_activation-Activates id (some subnet_data) =
      Activates-if id (ltb 0 subnet_data.activated) _ _ (activate_now-Activates id 1 (omega arith))
        (Activates-bind id (send (activation id)) _ (λ _.
          Activates-bind id (on_chain (chain.activate_subnet id)) _
            (λ o. read_receipt-Activates id o)))

  activate_in_turn-Activates :
      (id : ℕ) (early late : Bool) → Activates id (activate_in_turn chain id early late)
  activate_in_turn-Activates id early late =
      Activates-if id (not early && not late) _ _
        (Activates-bind id (on_chain (chain.get_subnet_data id)) _
          (λ o. send_activation-Activates id o))
        (Activates-false id)

  module _ (again : M chain.World Bool) (id : ℕ) where
    waits-Activates :
        (early late : Bool) (delta : ℕ)
        → Activates id (do
          wait_if chain early delta again
          wait_if chain late block_secs again
          activate_in_turn chain id early late)
    waits-Activates early late delta = Activates-bind id (wait_if chain early delta again) _ (λ _.
        Activates-bind id (wait_if chain late block_secs again) _
          (λ _. activate_in_turn-Activates id early late))

    take_turn-Activates :
        (start : ℕ) (p : Bool × ℕ) → Activates id (take_turn chain again id start p)
    take_turn-Activates start (b, n) =
        Activates-bind id (wait_if chain (not b) block_secs again) _ (λ _.
          Activates-bind id (on_chain chain.get_block_number) (at_block chain again id start n)
            (λ block. waits-Activates _ _ _))

    register-Activates : (d : SubnetData) → Activates id (register chain again id d)
    register-Activates d = elim (Bool-cases (ltb 0 d.activated)) [
      | inl active ↦ rw active (activate_now-Activates id d.activated (ground arith))
      | inr not_active ↦ rw not_active (
          Activates-bind id node _ (λ self.
            Activates-bind id (on_chain (chain.get_submittable_nodes (some id))) _
              (λ nodes. take_turn-Activates _ (entry_index self.account_id nodes 0))))
    ]

    found_data-Activates : (o : Option SubnetData) → Activates id (found_data chain again id o)
    found_data-Activates none =
        Activates-bind id (shutdown chain) (λ _. pure false) (λ _. Activates-false id)
    found_data-Activates (some d) = register-Activates d

  found_id-Activates :
      (again : M chain.World Bool) (id : ℕ) → Activates id (found_id chain again (some id))
  found_id-Activates again id =
      Activates-bind id (on_chain (chain.get_subnet_data id)) _
        (λ o. found_data-Activates again id o)

  -- If a call in the world `w` returned True, the chain had answered with an id for the path, and the
  -- node has it.
  abbrev pub Activated : chain.World → Result Bool × State chain.World → Type 0
  Activated w (r, t) =
      r ≡ ok true
      → (id : ℕ) × (w' : chain.World) × (chain.get_subnet_id_by_path w ≡ (ok (some id), w'))
        × (t.node.subnet_accepting_consensus ≡ true)
        × (t.node.subnet_id ≡ some id)
        × (0 < t.node.subnet_activated)

  after_id :
      (again : M chain.World Bool) (w : chain.World) (s : State chain.World) (r : Result (Option ℕ))
      (w' : chain.World)
      → chain.get_subnet_id_by_path w ≡ (r, w')
      → Activated w (continue_with r (found_id chain again) s)
  unfolding shutdown
  after_id again w s raised w' e = λ h. cc
  after_id again w s (ok none) w' e = λ h. cc
  after_id again w s (ok (some id)) w' e = λ h.
      let (accepts, has_id, active) = (found_id-Activates again id).at s h in
      (id, w', e, accepts, has_id, active)

  -- When `_activate_subnet` returns True, however often it called itself before, the node accepts
  -- consensus, has the id that the chain gave for the subnet's path, and sees the subnet as activated.
  pub activate-Activated :
      (depth : ℕ) (s : State chain.World) → Activated s.world (activate chain depth s)
  unfolding activate
  activate-Activated zero s = λ h. cc
  activate-Activated (suc depth) s =
      let (r, w') = chain.get_subnet_id_by_path s.world in
      after_id (activate chain depth) s.world (record s { world = w' }) r w' refl
