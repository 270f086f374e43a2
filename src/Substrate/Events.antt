-- ===== src/Substrate/Events.antt =====
-- `get_reward_result_event` of src/subnet/substrate/chain_functions.py: the event of an epoch's
-- rewards, looked up among the events of the block at which the epoch begins.
pub mod First
use text.Mathlib.Text.{◌==◌ as ◌=ˢ◌}
use subnet_llm_template.Prelude.{
  ℕ, ◌*◌, Bool, true, false, ◌&&◌, Option, none, some, List, [], ◌∷◌, ◌==◌, if◌then◌else◌,
}
use subnet_llm_template.Substrate.{Failure, other, Outcome, returned, threw, Action, give, ◌>>=◌}
use subnet_llm_template.Substrate.Interface.{
  Interface, Value, null, num, Event, Session, Tenacity, on_world,
}
use subnet_llm_template.Substrate.Requests.{after_nothing, with_substrate, retrying}
use subnet_llm_template.Substrate.Queries.{or_throw, get_epoch_length}

-- `subnet_id == target_subnet_id`, for a target that is an integer or `None`
abbrev pub is_target : Option ℕ → Value → Bool
is_target (some n) (num m) = m == n
is_target none null = true
is_target _ _ = false

abbrev pub is_reward_result : Event → Bool
is_reward_result e = (e.module_id =ˢ "Network") && (e.event_id =ˢ "RewardResult")

-- `subnet_id, attestation_percentage = attributes`: a `ValueError` unless there are two
abbrev pub unpack : List Value → Option (Value × Value)
unpack (a ∷ b ∷ []) = some (a, b)
unpack _ = none

-- What the loop does at an event with these attributes, where `rest` is what it finds after it.
abbrev pub at_event :
    Option ℕ
    → Option (Value × Value)
    → Outcome (Option (Value × Value))
    → Outcome (Option (Value × Value))
at_event target none rest = threw other
at_event target (some (subnet_id, percentage)) rest =
    if is_target target subnet_id then returned (some (subnet_id, percentage)) else rest

unfoldable pub find_event : Option ℕ → List Event → Outcome (Option (Value × Value))
find_event target [] = returned none
find_event target (e ∷ es) =
    let rest = find_event target es in
    if is_reward_result e then at_event target (unpack e.attributes) rest else rest

-- `int(str(epoch_length))`: a `ValueError` where the query has ended with `None`
module _ (I : Interface) where
  abbrev pub int_of : Option I.Reply → Option ℕ
  int_of (some reply) = I.digits reply
  int_of none = none

-- the `None` of a handler and the `None` of a search are the same
abbrev pub flatten : Option (Option (Value × Value)) → Option (Value × Value)
flatten (some found) = found
flatten none = none

module _ {I : Interface} (T : Tenacity I) where
  -- one attempt, the queries that it makes in turn among it
  unfoldable pub event_attempt : Option ℕ → ℕ → Action (Session I) (Option (Value × Value))
  unfolding get_epoch_length find_event
  event_attempt target epoch = get_epoch_length T >>= λ reply.
      or_throw (int_of I reply) >>= λ epoch_length.
      on_world (I.get_block_hash (some (epoch_length * epoch))) >>= λ block_hash.
      with_substrate
        (on_world (I.get_events block_hash) >>= λ events s. (find_event target events, s))

  unfoldable pub get_reward_result_event :
      Option ℕ → ℕ → Action (Session I) (Option (Value × Value))
  unfolding event_attempt
  get_reward_result_event target epoch =
      retrying T after_nothing (event_attempt target epoch) >>= λ found. give (flatten found)
