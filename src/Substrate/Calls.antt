-- ===== src/Substrate/Calls.antt =====
-- What the chain is told by each function of chain_functions.py that submits: the call, with its
-- parameters, and how it is signed. A table, read off the names of the functions.
use Prim.Native.String.{String}
use subnet_llm_template.Prelude.{Option, ◌≡◌, refl}
use subnet_llm_template.Substrate.{Action, ◌>>=◌}
use subnet_llm_template.Substrate.Interface.{
  Interface, num, str, dict, Fields, end, field, Session, Tenacity,
}
use subnet_llm_template.Substrate.Requests.{compose, send_reported, send_fresh, send_signed}
use subnet_llm_template.Substrate.Operations.{
  Operation, run, validate, attest, register_subnet, activate_subnet, remove_subnet,
  add_subnet_node, register_subnet_node, activate_subnet_node, deactivate_subnet_node,
  remove_subnet_node, add_to_stake, remove_stake, add_to_delegate_stake,
}

-- `deactivate_subnet_node` sends the call of `activate_subnet_node`.
abbrev pub function_of : Operation → String
function_of (validate _ _ _) = "validate"
function_of (attest _) = "attest"
function_of (register_subnet _ _ _) = "register_subnet"
function_of (activate_subnet _) = "activate_subnet"
function_of (remove_subnet _) = "remove_subnet"
function_of (add_subnet_node _ _ _ _ _ _) = "add_subnet_node"
function_of (register_subnet_node _ _ _ _ _ _) = "register_subnet_node"
function_of (activate_subnet_node _) = "activate_subnet_node"
function_of (deactivate_subnet_node _) = "activate_subnet_node"
function_of (remove_subnet_node _) = "remove_subnet_node"
function_of (add_to_stake _ _) = "add_to_stake"
function_of (remove_stake _ _) = "remove_stake"
function_of (add_to_delegate_stake _ _) = "add_to_delegate_stake"

abbrev pub params_of : Operation → Fields
params_of (validate subnet_id consensus_data args) =
    field "subnet_id" subnet_id (field "data" consensus_data (field "args" args end))
params_of (attest subnet_id) = field "subnet_id" subnet_id end
params_of (register_subnet path memory_mb registration_blocks) =
    field "subnet_data"
      (dict (
        field "path" (str path) (
          field "memory_mb" (num memory_mb)
            (field "registration_blocks" (num registration_blocks) end))))
      end
params_of (activate_subnet subnet_id) = field "subnet_id" (num subnet_id) end
params_of (remove_subnet subnet_id) = field "subnet_id" (num subnet_id) end
params_of (add_subnet_node subnet_id peer_id stake_to_be_added a b c) =
    field "subnet_id" (num subnet_id) (
      field "peer_id" (str peer_id) (
        field "stake_to_be_added" (num stake_to_be_added)
          (field "a" a (field "b" b (field "c" c end)))))
params_of (register_subnet_node subnet_id peer_id stake_to_be_added a b c) =
    field "subnet_id" (num subnet_id) (
      field "peer_id" (str peer_id) (
        field "stake_to_be_added" (num stake_to_be_added)
          (field "a" a (field "b" b (field "c" c end)))))
params_of (activate_subnet_node subnet_id) = field "subnet_id" (num subnet_id) end
params_of (deactivate_subnet_node subnet_id) = field "subnet_id" (num subnet_id) end
params_of (remove_subnet_node subnet_id) = field "subnet_id" (num subnet_id) end
params_of (add_to_stake subnet_id stake_to_be_added) =
    field "subnet_id" (num subnet_id) (field "stake_to_be_added" (num stake_to_be_added) end)
params_of (remove_stake subnet_id stake_to_be_removed) =
    field "subnet_id" (num subnet_id) (field "stake_to_be_removed" (num stake_to_be_removed) end)
params_of (add_to_delegate_stake subnet_id stake_to_be_added) =
    field "subnet_id" (num subnet_id) (field "stake_to_be_added" (num stake_to_be_added) end)

-- Signed in each attempt and reported, signed in each attempt, or signed once.
pub data Style : Type 0 where
  reported fresh signed : Style

abbrev pub style_of : Operation → Style
style_of (validate _ _ _) = reported
style_of (attest _) = reported
style_of (register_subnet _ _ _) = signed
style_of (activate_subnet _) = fresh
style_of (remove_subnet _) = signed
style_of (add_subnet_node _ _ _ _ _ _) = fresh
style_of (register_subnet_node _ _ _ _ _ _) = fresh
style_of (activate_subnet_node _) = fresh
style_of (deactivate_subnet_node _) = fresh
style_of (remove_subnet_node _) = fresh
style_of (add_to_stake _ _) = fresh
style_of (remove_stake _ _) = fresh
style_of (add_to_delegate_stake _ _) = fresh

module _ {I : Interface} (T : Tenacity I) where
  abbrev pub send : Style → I.Call → I.Keypair → Action (Session I) (Option I.Receipt)
  send reported = send_reported T
  send fresh = send_fresh T
  send signed = send_signed T

  pub run_lem :
      (op : Operation) (keypair : I.Keypair)
      → run T op keypair
        ≡ (compose (function_of op) (params_of op) >>= λ call. send (style_of op) call keypair)
  unfolding run
  run_lem (validate subnet_id consensus_data args) keypair = refl
  run_lem (attest subnet_id) keypair = refl
  run_lem (register_subnet path memory_mb registration_blocks) keypair = refl
  run_lem (activate_subnet subnet_id) keypair = refl
  run_lem (remove_subnet subnet_id) keypair = refl
  run_lem (add_subnet_node subnet_id peer_id stake_to_be_added a b c) keypair = refl
  run_lem (register_subnet_node subnet_id peer_id stake_to_be_added a b c) keypair = refl
  run_lem (activate_subnet_node subnet_id) keypair = refl
  run_lem (deactivate_subnet_node subnet_id) keypair = refl
  run_lem (remove_subnet_node subnet_id) keypair = refl
  run_lem (add_to_stake subnet_id stake_to_be_added) keypair = refl
  run_lem (remove_stake subnet_id stake_to_be_removed) keypair = refl
  run_lem (add_to_delegate_stake subnet_id stake_to_be_added) keypair = refl
