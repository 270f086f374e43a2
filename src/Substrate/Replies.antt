-- ===== src/Substrate/Replies.antt =====
-- What the chain is asked by each function of chain_functions.py that passes the reply on: a table of
-- the methods of its RPC, the items of its storage and its constants.
use subnet_llm_template.Prelude.{[], ◌∷◌, ◌≡◌, refl}
use subnet_llm_template.Substrate.{Action}
use subnet_llm_template.Substrate.Interface.{Interface, num, str, Tenacity}
use subnet_llm_template.Substrate.Requests.{read}
use subnet_llm_template.Substrate.Operations.{
  Question, ask, get_subnet_nodes, get_subnet_nodes_included, get_subnet_nodes_submittable,
  get_consensus_data, get_accountant_data, is_subnet_node_by_peer_id, get_minimum_subnet_nodes,
  get_minimum_delegate_stake, get_subnet_node_info, get_subnet_stake_balance,
  get_subnet_node_account, get_subnet_accounts, get_subnet_id_by_path, get_subnet_data,
  get_max_subnets, get_min_subnet_nodes, get_min_stake_balance, get_max_subnet_nodes,
  get_tx_rate_limit, get_rewards_validator, get_rewards_submission,
  get_min_subnet_registration_blocks, get_max_subnet_registration_blocks, get_epoch_length,
}

abbrev pub request_of : (I : Interface) → Question → Action I.World I.Reply
request_of I (get_subnet_nodes subnet_id) =
    I.rpc_request "network_getSubnetNodes" (num subnet_id ∷ [])
request_of I (get_subnet_nodes_included subnet_id) =
    I.rpc_request "network_getSubnetNodesIncluded" (subnet_id ∷ [])
request_of I (get_subnet_nodes_submittable subnet_id) =
    I.rpc_request "network_getSubnetNodesSubmittable" (subnet_id ∷ [])
request_of I (get_consensus_data subnet_id epoch) =
    I.rpc_request "network_getConsensusData" (num subnet_id ∷ num epoch ∷ [])
request_of I (get_accountant_data subnet_id id) =
    I.rpc_request "network_getAccountantData" (num subnet_id ∷ num id ∷ [])
request_of I (is_subnet_node_by_peer_id subnet_id peer_id) =
    I.rpc_request "network_isSubnetNodeByPeerId" (num subnet_id ∷ str peer_id ∷ [])
request_of I (get_minimum_subnet_nodes memory_mb) =
    I.rpc_request "network_getMinimumSubnetNodes" (num memory_mb ∷ [])
request_of I (get_minimum_delegate_stake memory_mb) =
    I.rpc_request "network_getMinimumDelegateStake" (num memory_mb ∷ [])
request_of I (get_subnet_node_info subnet_id) =
    I.rpc_request "network_getSubnetNodeInfo" (num subnet_id ∷ [])
request_of I (get_subnet_stake_balance subnet_id address) =
    I.query "Network" "AccountSubnetStake" (str address ∷ num subnet_id ∷ [])
request_of I (get_subnet_node_account subnet_id peer_id) =
    I.query "Network" "SubnetNodeAccount" (num subnet_id ∷ str peer_id ∷ [])
request_of I (get_subnet_accounts subnet_id) =
    I.query "Network" "SubnetAccount" (num subnet_id ∷ [])
request_of I (get_subnet_id_by_path path) = I.query "Network" "SubnetPaths" (str path ∷ [])
request_of I (get_subnet_data id) = I.query "Network" "SubnetsData" (num id ∷ [])
request_of I get_max_subnets = I.query "Network" "MaxSubnets" []
request_of I get_min_subnet_nodes = I.query "Network" "MinSubnetNodes" []
request_of I get_min_stake_balance = I.query "Network" "MinStakeBalance" []
request_of I get_max_subnet_nodes = I.query "Network" "MaxSubnetNodes" []
request_of I get_tx_rate_limit = I.query "Network" "TxRateLimit" []
request_of I (get_rewards_validator subnet_id epoch) =
    I.query "Network" "SubnetRewardsValidator" (subnet_id ∷ epoch ∷ [])
request_of I (get_rewards_submission subnet_id epoch) =
    I.query "Network" "SubnetRewardsSubmission" (subnet_id ∷ epoch ∷ [])
request_of I get_min_subnet_registration_blocks = I.query "Network" "MinSubnetRegistrationBlocks" []
request_of I get_max_subnet_registration_blocks = I.query "Network" "MaxSubnetRegistrationBlocks" []
request_of I get_epoch_length = I.get_constant "Network" "EpochLength"

module _ {I : Interface} (T : Tenacity I) where
  pub ask_lem : (q : Question) → ask T q ≡ read T (request_of I q)
  unfolding ask
  ask_lem (get_subnet_nodes subnet_id) = refl
  ask_lem (get_subnet_nodes_included subnet_id) = refl
  ask_lem (get_subnet_nodes_submittable subnet_id) = refl
  ask_lem (get_consensus_data subnet_id epoch) = refl
  ask_lem (get_accountant_data subnet_id id) = refl
  ask_lem (is_subnet_node_by_peer_id subnet_id peer_id) = refl
  ask_lem (get_minimum_subnet_nodes memory_mb) = refl
  ask_lem (get_minimum_delegate_stake memory_mb) = refl
  ask_lem (get_subnet_node_info subnet_id) = refl
  ask_lem (get_subnet_stake_balance subnet_id address) = refl
  ask_lem (get_subnet_node_account subnet_id peer_id) = refl
  ask_lem (get_subnet_accounts subnet_id) = refl
  ask_lem (get_subnet_id_by_path path) = refl
  ask_lem (get_subnet_data id) = refl
  ask_lem get_max_subnets = refl
  ask_lem get_min_subnet_nodes = refl
  ask_lem get_min_stake_balance = refl
  ask_lem get_max_subnet_nodes = refl
  ask_lem get_tx_rate_limit = refl
  ask_lem (get_rewards_validator subnet_id epoch) = refl
  ask_lem (get_rewards_submission subnet_id epoch) = refl
  ask_lem get_min_subnet_registration_blocks = refl
  ask_lem get_max_subnet_registration_blocks = refl
  ask_lem get_epoch_length = refl
