-- ===== src/Substrate/Interface.antt =====
-- The libraries that src/subnet/substrate/chain_functions.py stands on: `SubstrateInterface` of
-- substrate-interface and `retry` of tenacity. Nothing is known of the first. Of the second only what
-- its documentation says of `stop_after_attempt`, `wait_fixed` and `after`.
use Prim.Native.String.{String}
use subnet_llm_template.Prelude.{ℕ, suc, ◌+◌, ◌≡◌, Bool, Option, List}
use subnet_llm_template.Consensus.Data.{RewardsData}
use subnet_llm_template.Substrate.{Failure, exhausted, returned, threw, Action}

-- The Python values that are passed in a call, or that a decoded result holds. `negative n` is the
-- integer `-1 - n`.
mutual
  pub data Value : Type 0 where
    null : Value
    num : ℕ → Value
    negative : ℕ → Value
    str : String → Value
    scores : List RewardsData → Value
    dict : Fields → Value

  pub data Fields : Type 0 where
    end : Fields
    field : String → Value → Fields → Fields

pub record Event : Type 0 where
  pub module_id : String
  pub event_id : String
  pub attributes : List Value

pub record Interface : Type 1 where
  pub World : Type 0
  pub Keypair : Type 0
  pub Call : Type 0
  pub Extrinsic : Type 0
  pub Receipt : Type 0
  pub Reply : Type 0
  pub Hash : Type 0
  -- `with substrate`
  pub enter : Action World (Unit {0})
  pub leave : Action World (Unit {0})
  pub ss58_address : Keypair → String
  pub compose_call : String → String → Fields → Action World Call
  pub get_account_nonce : String → Action World ℕ
  -- the nonce is looked up when it is not given
  pub create_signed_extrinsic : Call → Keypair → Option ℕ → Action World Extrinsic
  -- `wait_for_inclusion=True`
  pub submit_extrinsic : Extrinsic → Action World Receipt
  -- the properties of a receipt ask the chain when they are read first
  pub is_success : Receipt → Action World Bool
  pub triggered_events : Receipt → Action World (Unit {0})
  pub error_message : Receipt → Action World (Unit {0})
  pub rpc_request : String → List Value → Action World Reply
  pub query : String → String → List Value → Action World Reply
  pub get_constant : String → String → Action World Reply
  pub get_block_hash : Option ℕ → Action World Hash
  pub get_block_number : Hash → Action World ℕ
  pub get_events : Hash → Action World (List Event)
  -- `reply.value`, and `int(str(reply))` where that is a number
  pub value : Reply → Value
  pub digits : Reply → Option ℕ

-- The process: what the interface works on, the module's `retry_counter`, and for the statements the
-- extrinsics submitted so far, the last one first, and the seconds slept between attempts.
pub record Session (I : Interface) : Type 0 where
  pub world : I.World
  pub retry_counter : ℕ
  pub submitted : List I.Extrinsic
  pub slept : ℕ

module _ {I : Interface} {A : Type 0} where
  abbrev pub on_world : Action I.World A → Action (Session I) A
  on_world m s = let (r, w) = m s.world in (r, record s { world = w })

module _ {I : Interface} where
  abbrev pub sleep : ℕ → Session I → Session I
  sleep n s = record s { slept = s.slept + n }

-- `retry(wait=wait_fixed(w), stop=stop_after_attempt(n), after=f)`, by `w`, `n` and `f`.
pub record Tenacity (I : Interface) : Type 1 where
  pub retry :
      {A : Type 0} → ℕ → ℕ → (Session I → Session I) → Action (Session I) A → Action (Session I) A

-- An attempt that returns is the last one. After one that raises there is the call of `after`, and
-- then the wait and the next attempt, or a `RetryError` when there have been as many as allowed.
pub record IsRetrying {I : Interface} (T : Tenacity I) : Type 1 where
  pub first :
      {A : Type 0} (w n : ℕ) (f : Session I → Session I) (m : Action (Session I) A) (s : Session I)
      → {a : A} {t : Session I} → m s ≡ (returned a, t)
      → T.retry w (suc n) f m s ≡ (returned a, t)
  pub again :
      {A : Type 0} (w n : ℕ) (f : Session I → Session I) (m : Action (Session I) A) (s : Session I)
      → {x : Failure} {t : Session I} → m s ≡ (threw x, t)
      → T.retry w (suc (suc n)) f m s ≡ T.retry w (suc n) f m (sleep w (f t))
  pub last :
      {A : Type 0} (w : ℕ) (f : Session I → Session I) (m : Action (Session I) A) (s : Session I)
      → {x : Failure} {t : Session I} → m s ≡ (threw x, t)
      → T.retry w 1 f m s ≡ (threw exhausted, f t)
