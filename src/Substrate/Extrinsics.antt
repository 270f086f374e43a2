-- ===== src/Substrate/Extrinsics.antt =====
-- The functions of src/subnet/substrate/chain_functions.py that submit an extrinsic: each composes a
-- call of the pallet `Network` and submits it. A dict of parameters lists them in the source's order.
use Prim.Native.String.{String}
use subnet_llm_template.Prelude.{ℕ, Option}
use subnet_llm_template.Substrate.{Action, ◌>>=◌}
use subnet_llm_template.Substrate.Interface.{
  Interface, Value, num, str, dict, end, field, Session, Tenacity,
}
use subnet_llm_template.Substrate.Requests.{compose, send_reported, send_fresh, send_signed}

module _ {I : Interface} (T : Tenacity I) (keypair : I.Keypair) where
  unfoldable pub validate : Value → Value → Value → Action (Session I) (Option I.Receipt)
  unfolding send_reported
  validate subnet_id consensus_data args =
      compose "validate"
        (field "subnet_id" subnet_id (field "data" consensus_data (field "args" args end)))
      >>= λ call. send_reported T call keypair

  unfoldable pub attest : Value → Action (Session I) (Option I.Receipt)
  unfolding send_reported
  attest subnet_id =
      compose "attest" (field "subnet_id" subnet_id end) >>= λ call. send_reported T call keypair

  unfoldable pub register_subnet : String → ℕ → ℕ → Action (Session I) (Option I.Receipt)
  unfolding send_signed
  register_subnet path memory_mb registration_blocks =
      compose "register_subnet" (
        field "subnet_data"
          (dict (
            field "path" (str path) (
              field "memory_mb" (num memory_mb)
                (field "registration_blocks" (num registration_blocks) end))))
          end)
      >>= λ call. send_signed T call keypair

  unfoldable pub activate_subnet : ℕ → Action (Session I) (Option I.Receipt)
  unfolding send_fresh
  activate_subnet subnet_id =
      compose "activate_subnet" (field "subnet_id" (num subnet_id) end) >>= λ call.
      send_fresh T call keypair

  unfoldable pub remove_subnet : ℕ → Action (Session I) (Option I.Receipt)
  unfolding send_signed
  remove_subnet subnet_id =
      compose "remove_subnet" (field "subnet_id" (num subnet_id) end) >>= λ call.
      send_signed T call keypair

  unfoldable pub add_subnet_node :
      ℕ → String → ℕ → Value → Value → Value → Action (Session I) (Option I.Receipt)
  unfolding send_fresh
  add_subnet_node subnet_id peer_id stake_to_be_added a b c =
      compose "add_subnet_node" (
        field "subnet_id" (num subnet_id) (
          field "peer_id" (str peer_id) (
            field "stake_to_be_added" (num stake_to_be_added)
              (field "a" a (field "b" b (field "c" c end))))))
      >>= λ call. send_fresh T call keypair

  unfoldable pub register_subnet_node :
      ℕ → String → ℕ → Value → Value → Value → Action (Session I) (Option I.Receipt)
  unfolding send_fresh
  register_subnet_node subnet_id peer_id stake_to_be_added a b c =
      compose "register_subnet_node" (
        field "subnet_id" (num subnet_id) (
          field "peer_id" (str peer_id) (
            field "stake_to_be_added" (num stake_to_be_added)
              (field "a" a (field "b" b (field "c" c end))))))
      >>= λ call. send_fresh T call keypair

  unfoldable pub activate_subnet_node : ℕ → Action (Session I) (Option I.Receipt)
  unfolding send_fresh
  activate_subnet_node subnet_id =
      compose "activate_subnet_node" (field "subnet_id" (num subnet_id) end) >>= λ call.
      send_fresh T call keypair

  -- as the code has it, the call of `activate_subnet_node`
  unfoldable pub deactivate_subnet_node : ℕ → Action (Session I) (Option I.Receipt)
  unfolding send_fresh
  deactivate_subnet_node subnet_id =
      compose "activate_subnet_node" (field "subnet_id" (num subnet_id) end) >>= λ call.
      send_fresh T call keypair

  unfoldable pub remove_subnet_node : ℕ → Action (Session I) (Option I.Receipt)
  unfolding send_fresh
  remove_subnet_node subnet_id =
      compose "remove_subnet_node" (field "subnet_id" (num subnet_id) end) >>= λ call.
      send_fresh T call keypair

  unfoldable pub add_to_stake : ℕ → ℕ → Action (Session I) (Option I.Receipt)
  unfolding send_fresh
  add_to_stake subnet_id stake_to_be_added =
      compose "add_to_stake"
        (field "subnet_id" (num subnet_id) (field "stake_to_be_added" (num stake_to_be_added) end))
      >>= λ call. send_fresh T call keypair

  unfoldable pub remove_stake : ℕ → ℕ → Action (Session I) (Option I.Receipt)
  unfolding send_fresh
  remove_stake subnet_id stake_to_be_removed =
      compose "remove_stake" (
        field "subnet_id" (num subnet_id)
          (field "stake_to_be_removed" (num stake_to_be_removed) end))
      >>= λ call. send_fresh T call keypair

  unfoldable pub add_to_delegate_stake : ℕ → ℕ → Action (Session I) (Option I.Receipt)
  unfolding send_fresh
  add_to_delegate_stake subnet_id stake_to_be_added =
      compose "add_to_delegate_stake"
        (field "subnet_id" (num subnet_id) (field "stake_to_be_added" (num stake_to_be_added) end))
      >>= λ call. send_fresh T call keypair
