-- ===== src/Consensus/Activate.antt =====
-- `_activate_subnet`. It calls itself; the first argument of `activate` is how deep the calls may
-- still go, since Python raises RecursionError past its limit.
pub mod Outcome
use subnet_llm_template.Prelude.{
  ℕ, zero, suc, ◌+◌, ◌-◌, ◌*◌, Bool, true, false, ◌&&◌, ◌||◌, not, Option, none, some, List, [],
  ◌∷◌, ◌==◌, ltb, leb, if◌then◌else◌,
}
use subnet_llm_template.Exec.{Exec, pure, raise, ◌>>=◌, ◌>>◌}
use subnet_llm_template.Consensus.Chain.{
  Chain, Node, SubnetData, Receipt, activation, M, on_chain, node, update, send,
}
use subnet_llm_template.Consensus.Attest.{shutdown}

abbrev pub block_secs : ℕ
block_secs = 6

-- The loop over the submittable nodes: whether the account is among them, and how many were read.
abbrev pub entry_index : ℕ → List ℕ → ℕ → Bool × ℕ
entry_index account [] n = (false, n)
entry_index account (a ∷ rest) n =
    if a == account then (true, n + 1) else entry_index account rest (n + 1)

-- The loop over the events of the receipt.
abbrev pub has_event : List Bool → Bool
has_event [] = false
has_event (b ∷ events) = b || has_event events

module _ (chain : Chain) where
  abbrev pub activate_now : ℕ → ℕ → M chain.World Bool
  activate_now id activated = do
    update (λ n. record n {
      subnet_accepting_consensus = true;
      subnet_id = some id;
      subnet_activated = activated;
    })
    pure true

  abbrev pub read_receipt : ℕ → Option Receipt → M chain.World Bool
  read_receipt id none = pure false
  read_receipt id (some receipt) =
      if receipt.is_success && has_event receipt.triggered_events
      then activate_now id 1
      else pure false

  -- Within the blocks that are this node's: look once more, and send the transaction.
  abbrev pub send_activation : ℕ → Option SubnetData → M chain.World Bool
  send_activation id none = raise
  send_activation id (some subnet_data) =
      if ltb 0 subnet_data.activated then activate_now id 1 else do
        send (activation id)
        receipt ← on_chain (chain.activate_subnet id)
        read_receipt id receipt

  abbrev pub wait_and : ℕ → M chain.World Bool → M chain.World Unit
  wait_and seconds again = do on_chain (chain.sleep seconds); again; pure tt

  abbrev pub wait_if : Bool → ℕ → M chain.World Bool → M chain.World Unit
  wait_if test seconds again = if test then wait_and seconds again else pure tt

  abbrev pub activate_in_turn : ℕ → Bool → Bool → M chain.World Bool
  activate_in_turn id early late =
      if not early && not late
      then (do subnet_data ← on_chain (chain.get_subnet_data id); send_activation id subnet_data)
      else pure false

  -- The first block of the node's turn is `activation_block + BLOCK_SECS * 10 * (n - 1)`, and the
  -- turn ends before `activation_block + BLOCK_SECS * 10 * n`.
  abbrev pub at_block : M chain.World Bool → ℕ → ℕ → ℕ → ℕ → M chain.World Bool
  at_block again id activation_block n block_number = do
    let early = ltb (block_number + block_secs * 10) (activation_block + block_secs * 10 * n)
    let late = leb (activation_block + block_secs * 10 * n) block_number
    wait_if early
        (block_secs * (activation_block + block_secs * 10 * n - block_secs * 10 - block_number))
        again
    wait_if late block_secs again
    activate_in_turn id early late

  abbrev pub take_turn : M chain.World Bool → ℕ → ℕ → Bool × ℕ → M chain.World Bool
  take_turn again id activation_block (submittable, n) = do
    wait_if (not submittable) block_secs again
    block_number ← on_chain chain.get_block_number
    at_block again id activation_block n block_number

  abbrev pub register : M chain.World Bool → ℕ → SubnetData → M chain.World Bool
  register again id subnet_data =
      if ltb 0 subnet_data.activated then activate_now id subnet_data.activated else do
        self ← node
        nodes ← on_chain (chain.get_submittable_nodes (some id))
        take_turn again id (subnet_data.initialized + subnet_data.registration_blocks)
            (entry_index self.account_id nodes 0)

  abbrev pub found_data : M chain.World Bool → ℕ → Option SubnetData → M chain.World Bool
  found_data again id none = do shutdown chain; pure false
  found_data again id (some subnet_data) = register again id subnet_data

  abbrev pub found_id : M chain.World Bool → Option ℕ → M chain.World Bool
  found_id again none = do shutdown chain; pure false
  found_id again (some id) = do
    subnet_data ← on_chain (chain.get_subnet_data id)
    found_data again id subnet_data

  unfoldable pub activate : ℕ → M chain.World Bool
  unfolding shutdown
  activate zero = raise
  activate (suc depth) = do id ← on_chain chain.get_subnet_id_by_path; found_id (activate depth) id
