-- ===== src/Substrate/Bounds.antt =====
-- What the functions of chain_functions.py can cost, over all of them.
use subnet_llm_template.Prelude.{ℕ, ◌+◌, ◌*◌, some, none, ◌≤◌, Option, arith}
use subnet_llm_template.Substrate.{other, ◌>>=◌}
use subnet_llm_template.Substrate.Interface.{Interface, Session, Tenacity, IsRetrying, on_world}
use subnet_llm_template.Substrate.Requests.{with_substrate}
use subnet_llm_template.Substrate.Operations as Operations
use subnet_llm_template.Substrate.Operations.{Operation, Question, run, ask}
use subnet_llm_template.Substrate.Queries.{or_throw}
use subnet_llm_template.Substrate.Events.{
  int_of, find_event, flatten, event_attempt, get_reward_result_event,
}
use subnet_llm_template.Substrate.Calls.{
  Style, reported, fresh, signed, function_of, params_of, style_of, send, run_lem,
}
use subnet_llm_template.Substrate.Replies.{request_of, ask_lem}
use subnet_llm_template.Substrate.Costs.{Adds, Adds-give, Adds-throw, Adds-weaker, Adds-bind, spent}
use subnet_llm_template.Substrate.Limits.{
  Adds-with_substrate, Adds-retrying, IsMeter, submissions, seconds, submissions-IsMeter,
  seconds-IsMeter, Adds-next, Adds-send_reported, Adds-send_fresh, Adds-send_signed, Adds-read,
}

module _ {I : Interface} (T : Tenacity I) (law : IsRetrying T) where
  module _ {measure : Session I → ℕ} {c p : ℕ} (meter : IsMeter measure c p) where
    Adds-send :
        (style : Style) (call : I.Call) (keypair : I.Keypair)
        → Adds measure (spent c p 3) (send T style call keypair)
    Adds-send reported = Adds-send_reported meter T law
    Adds-send fresh = Adds-send_fresh meter T law
    Adds-send signed = Adds-send_signed meter T law

    pub Adds-run :
        (op : Operation) (keypair : I.Keypair) → Adds measure (spent c p 3) (run T op keypair)
    Adds-run op keypair = rw (run_lem T op keypair) (
        Adds-next meter (spent c p 3) (I.compose_call "Network" (function_of op) (params_of op))
          λ call. Adds-send (style_of op) call keypair)

    pub Adds-ask : (q : Question) → Adds measure (spent 0 p 3) (ask T q)
    Adds-ask q = rw (ask_lem T q) (Adds-read meter T law (request_of I q))

    Adds-or_throw : {A : Type 0} (o : Option A) → Adds {S = Session I} measure 0 (or_throw o)
    Adds-or_throw (some a) = Adds-give a
    Adds-or_throw none = Adds-throw other

    Adds-find :
        (target : Option ℕ) (block_hash : I.Hash)
        → Adds measure 0 (
            with_substrate
              (on_world (I.get_events block_hash) >>= λ events s. (find_event target events, s)))
    Adds-find target block_hash =
        Adds-with_substrate meter
          (Adds-next meter 0 (I.get_events block_hash) λ events. record { at = λ s. omega arith })

    Adds-located :
        (target : Option ℕ) (epoch : ℕ) (reply : Option I.Reply)
        → Adds measure 0 (
            or_throw (int_of I reply) >>= λ epoch_length.
            on_world (I.get_block_hash (some (epoch_length * epoch))) >>= λ block_hash.
            with_substrate
              (on_world (I.get_events block_hash) >>= λ events s. (find_event target events, s)))
    Adds-located target epoch reply = Adds-bind 0 0 (Adds-or_throw (int_of I reply)) λ epoch_length.
        Adds-next meter 0 (I.get_block_hash (some (epoch_length * epoch))) (Adds-find target)

    Adds-attempt :
        (target : Option ℕ) (epoch : ℕ) → Adds measure (spent 0 p 3) (event_attempt T target epoch)
    unfolding event_attempt ask
    Adds-attempt target epoch = Adds-weaker (spent 0 p 3 + 0) (spent 0 p 3) (omega arith) (
        Adds-bind (spent 0 p 3) 0 (Adds-ask Operations.get_epoch_length)
          (Adds-located target epoch))

    Adds-reward_result :
        (target : Option ℕ) (epoch : ℕ)
        → Adds measure (spent (spent 0 p 3) p 3) (get_reward_result_event T target epoch)
    unfolding get_reward_result_event
    Adds-reward_result target epoch =
        Adds-weaker (spent (spent 0 p 3) p 3 + 0) (spent (spent 0 p 3) p 3) (omega arith) (
          Adds-bind (spent (spent 0 p 3) p 3) 0
            (Adds-retrying meter T law (spent 0 p 3) (Adds-attempt target epoch))
            λ found. Adds-give (flatten found))

  -- A call that submits does so at most four times, and sleeps for at most 21 seconds, whatever comes
  -- of it.
  pub run_within :
      (op : Operation) (keypair : I.Keypair) (s : Session I)
      → let t = (run T op keypair s).1 in
        (submissions t ≤ 4 + submissions s) × (seconds t ≤ 21 + seconds s)
  run_within op keypair s =
      ((Adds-run submissions-IsMeter op keypair).at s, (Adds-run seconds-IsMeter op keypair).at s)

  -- A query submits nothing and sleeps for at most 21 seconds; the query for the event of an epoch's
  -- rewards, whose attempts make the attempts of another, sleeps for at most 105.
  pub reads_within :
      (q : Question) (target : Option ℕ) (epoch : ℕ) (s : Session I)
      → let t = (ask T q s).1 in
        let u = (get_reward_result_event T target epoch s).1 in
        (submissions t ≤ submissions s)
        × (seconds t ≤ 21 + seconds s)
        × (submissions u ≤ submissions s)
        × (seconds u ≤ 105 + seconds s)
  reads_within q target epoch s = (
    omega (arith, (Adds-ask submissions-IsMeter q).at s),
    (Adds-ask seconds-IsMeter q).at s,
    omega (arith, (Adds-reward_result submissions-IsMeter target epoch).at s),
    (Adds-reward_result seconds-IsMeter target epoch).at s,
  )
