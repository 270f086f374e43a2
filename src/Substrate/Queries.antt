-- ===== src/Substrate/Queries.antt =====
-- The functions of src/subnet/substrate/chain_functions.py that ask the chain: over RPC, for an item
-- of its storage, or for a constant.
use Prim.Native.String.{String}
use text.Mathlib.Text.{◌==◌ as ◌=ˢ◌}
use subnet_llm_template.Prelude.{ℕ, Option, none, some, [], ◌∷◌, if◌then◌else◌}
use subnet_llm_template.Substrate.{other, Action, give, throw, ◌>>=◌}
use subnet_llm_template.Substrate.Interface.{
  Interface, Value, num, str, dict, Fields, end, field, Session, Tenacity,
}
use subnet_llm_template.Substrate.Requests.{read}

-- `value[key]`: a `KeyError` or a `TypeError` where there is none
abbrev pub entry : String → Fields → Option Value
entry key end = none
entry key (field k v rest) = if k =ˢ key then some v else entry key rest

abbrev pub get_item : Value → String → Option Value
get_item (dict fields) key = entry key fields
get_item _ key = none

module _ {S A : Type 0} where
  abbrev pub or_throw : Option A → Action S A
  or_throw (some a) = give a
  or_throw none = throw other

module _ {I : Interface} (T : Tenacity I) where
  unfoldable pub get_subnet_nodes : ℕ → Action (Session I) (Option I.Reply)
  unfolding read
  get_subnet_nodes subnet_id = read T (I.rpc_request "network_getSubnetNodes" (num subnet_id ∷ []))

  unfoldable pub get_subnet_nodes_included : Value → Action (Session I) (Option I.Reply)
  unfolding read
  get_subnet_nodes_included subnet_id =
      read T (I.rpc_request "network_getSubnetNodesIncluded" (subnet_id ∷ []))

  unfoldable pub get_subnet_nodes_submittable : Value → Action (Session I) (Option I.Reply)
  unfolding read
  get_subnet_nodes_submittable subnet_id =
      read T (I.rpc_request "network_getSubnetNodesSubmittable" (subnet_id ∷ []))

  unfoldable pub get_consensus_data : ℕ → ℕ → Action (Session I) (Option I.Reply)
  unfolding read
  get_consensus_data subnet_id epoch =
      read T (I.rpc_request "network_getConsensusData" (num subnet_id ∷ num epoch ∷ []))

  unfoldable pub get_accountant_data : ℕ → ℕ → Action (Session I) (Option I.Reply)
  unfolding read
  get_accountant_data subnet_id id =
      read T (I.rpc_request "network_getAccountantData" (num subnet_id ∷ num id ∷ []))

  unfoldable pub is_subnet_node_by_peer_id : ℕ → String → Action (Session I) (Option I.Reply)
  unfolding read
  is_subnet_node_by_peer_id subnet_id peer_id =
      read T (I.rpc_request "network_isSubnetNodeByPeerId" (num subnet_id ∷ str peer_id ∷ []))

  unfoldable pub get_minimum_subnet_nodes : ℕ → Action (Session I) (Option I.Reply)
  unfolding read
  get_minimum_subnet_nodes memory_mb =
      read T (I.rpc_request "network_getMinimumSubnetNodes" (num memory_mb ∷ []))

  unfoldable pub get_minimum_delegate_stake : ℕ → Action (Session I) (Option I.Reply)
  unfolding read
  get_minimum_delegate_stake memory_mb =
      read T (I.rpc_request "network_getMinimumDelegateStake" (num memory_mb ∷ []))

  unfoldable pub get_subnet_node_info : ℕ → Action (Session I) (Option I.Reply)
  unfolding read
  get_subnet_node_info subnet_id =
      read T (I.rpc_request "network_getSubnetNodeInfo" (num subnet_id ∷ []))

  unfoldable pub get_subnet_stake_balance : ℕ → String → Action (Session I) (Option I.Reply)
  unfolding read
  get_subnet_stake_balance subnet_id address =
      read T (I.query "Network" "AccountSubnetStake" (str address ∷ num subnet_id ∷ []))

  unfoldable pub get_subnet_node_account : ℕ → String → Action (Session I) (Option I.Reply)
  unfolding read
  get_subnet_node_account subnet_id peer_id =
      read T (I.query "Network" "SubnetNodeAccount" (num subnet_id ∷ str peer_id ∷ []))

  unfoldable pub get_subnet_accounts : ℕ → Action (Session I) (Option I.Reply)
  unfolding read
  get_subnet_accounts subnet_id = read T (I.query "Network" "SubnetAccount" (num subnet_id ∷ []))

  unfoldable pub get_subnet_id_by_path : String → Action (Session I) (Option I.Reply)
  unfolding read
  get_subnet_id_by_path path = read T (I.query "Network" "SubnetPaths" (str path ∷ []))

  unfoldable pub get_subnet_data : ℕ → Action (Session I) (Option I.Reply)
  unfolding read
  get_subnet_data id = read T (I.query "Network" "SubnetsData" (num id ∷ []))

  unfoldable pub get_max_subnets : Action (Session I) (Option I.Reply)
  unfolding read
  get_max_subnets = read T (I.query "Network" "MaxSubnets" [])

  unfoldable pub get_min_subnet_nodes : Action (Session I) (Option I.Reply)
  unfolding read
  get_min_subnet_nodes = read T (I.query "Network" "MinSubnetNodes" [])

  unfoldable pub get_min_stake_balance : Action (Session I) (Option I.Reply)
  unfolding read
  get_min_stake_balance = read T (I.query "Network" "MinStakeBalance" [])

  unfoldable pub get_max_subnet_nodes : Action (Session I) (Option I.Reply)
  unfolding read
  get_max_subnet_nodes = read T (I.query "Network" "MaxSubnetNodes" [])

  unfoldable pub get_tx_rate_limit : Action (Session I) (Option I.Reply)
  unfolding read
  get_tx_rate_limit = read T (I.query "Network" "TxRateLimit" [])

  unfoldable pub get_rewards_validator : Value → Value → Action (Session I) (Option I.Reply)
  unfolding read
  get_rewards_validator subnet_id epoch =
      read T (I.query "Network" "SubnetRewardsValidator" (subnet_id ∷ epoch ∷ []))

  unfoldable pub get_rewards_submission : Value → Value → Action (Session I) (Option I.Reply)
  unfolding read
  get_rewards_submission subnet_id epoch =
      read T (I.query "Network" "SubnetRewardsSubmission" (subnet_id ∷ epoch ∷ []))

  unfoldable pub get_min_subnet_registration_blocks : Action (Session I) (Option I.Reply)
  unfolding read
  get_min_subnet_registration_blocks = read T (I.query "Network" "MinSubnetRegistrationBlocks" [])

  unfoldable pub get_max_subnet_registration_blocks : Action (Session I) (Option I.Reply)
  unfolding read
  get_max_subnet_registration_blocks = read T (I.query "Network" "MaxSubnetRegistrationBlocks" [])

  unfoldable pub get_epoch_length : Action (Session I) (Option I.Reply)
  unfolding read
  get_epoch_length = read T (I.get_constant "Network" "EpochLength")

  -- with the hash of the block at the head of the chain
  unfoldable pub get_block_number : Action (Session I) (Option ℕ)
  unfolding read
  get_block_number = read T (I.get_block_hash none >>= I.get_block_number)

  -- the free balance, as the code digs it out of what the query gives
  unfoldable pub get_balance : String → Action (Session I) (Option Value)
  unfolding read
  get_balance address = read T (
      I.query "System" "Account" (str address ∷ []) >>= λ result.
      or_throw (get_item (I.value result) "data") >>= λ account. or_throw (get_item account "free"))
