-- ===== src/Substrate/Nodes.antt =====
-- The nodes of a subnet: `SubnetNode` and from_scale_encoding of src/subnet/substrate/chain_data.py,
-- and get_submittable_nodes and get_included_nodes of src/subnet/substrate/utils.py.
use Prim.Native.String.{String, ◌++◌ as ◌<>◌}
use subnet_llm_template.Prelude.{
  ℕ, Bool, true, false, ◌&&◌, Option, none, some, List, [], ◌∷◌, map, ltb, if◌then◌else◌,
}
use subnet_llm_template.Substrate.{other, Action, give, throw, ◌>>=◌}
use subnet_llm_template.Substrate.Interface.{Interface, Value, Session, Tenacity, on_world}
use subnet_llm_template.Substrate.Queries.{
  or_throw, get_subnet_nodes_included, get_subnet_nodes_submittable,
}

-- Account and peer ids are only compared: they are numbers.
pub record SubnetNode : Type 0 where
  pub account_id : ℕ
  pub hotkey : ℕ
  pub peer_id : ℕ
  pub initialized : ℕ
  pub classification : Value
  pub a : Value
  pub b : Value
  pub c : Value

-- What the code uses of the reply of an RPC, of scalecodec and of its `ss58_encode`.
pub record Codec (I : Interface) : Type 0 where
  -- `reply["result"]`
  pub result : I.Reply → Option (List ℕ)
  -- `create_scale_object(type_string, data).decode()`, for a list of nodes
  pub decode : String → List ℕ → Action I.World (Option (List SubnetNode))
  pub ss58_encode : ℕ → ℕ

abbrev pub are_bytes : List ℕ → Bool
are_bytes [] = true
are_bytes (n ∷ ns) = ltb n 256 && are_bytes ns

-- `type_string`, for an `Option` and for a `Vec`
abbrev pub type_string : String → Bool → Bool → String
type_string name is_vec is_option =
    let inner = if is_option then "Option<" <> (name <> ">") else name in
    if is_vec then "Vec<" <> (inner <> ">") else inner

module _ {I : Interface} (C : Codec I) where
  -- For a list of integers, which `bytes` refuses unless they are below 256.
  unfoldable pub from_scale_encoding :
      List ℕ → String → Bool → Bool → Action (Session I) (Option (List SubnetNode))
  from_scale_encoding input name is_vec is_option =
      if are_bytes input
      then on_world (C.decode (type_string name is_vec is_option) input)
      else throw other

  unfoldable pub fix_decoded_values : SubnetNode → SubnetNode
  fix_decoded_values decoded = record decoded { account_id = C.ss58_encode decoded.account_id }

  abbrev pub fix_all : Option (List SubnetNode) → List SubnetNode
  unfolding fix_decoded_values
  fix_all none = []
  fix_all (some decoded_list) = map fix_decoded_values decoded_list

  unfoldable pub list_from_vec_u8 : List ℕ → Action (Session I) (List SubnetNode)
  unfolding from_scale_encoding fix_decoded_values
  list_from_vec_u8 vec_u8 = from_scale_encoding vec_u8 "SubnetNode" true false >>= λ decoded_list.
      give (fix_all decoded_list)

  -- `result["result"]`, which raises where `result` is `None`
  abbrev pub payload : Option I.Reply → Option (List ℕ)
  payload none = none
  payload (some reply) = C.result reply

  module _ (T : Tenacity I) where
    unfoldable pub get_submittable_nodes : Value → Action (Session I) (List SubnetNode)
    unfolding list_from_vec_u8 get_subnet_nodes_submittable
    get_submittable_nodes subnet_id = get_subnet_nodes_submittable T subnet_id >>= λ result.
        or_throw (payload result) >>= λ vec_u8. list_from_vec_u8 vec_u8

    unfoldable pub get_included_nodes : Value → Action (Session I) (List SubnetNode)
    unfolding list_from_vec_u8 get_subnet_nodes_included
    get_included_nodes subnet_id = get_subnet_nodes_included T subnet_id >>= λ result.
        or_throw (payload result) >>= λ vec_u8. list_from_vec_u8 vec_u8
