-- ===== src/Substrate/Node/Effects.antt =====
-- What it does to the consensus thread that the functions of chain_functions.py are what it calls.
use Prim.Native.String.{String}
use subnet_llm_template.Prelude.{
  ℕ, ◌+◌, ◌≤◌, ◌≡◌, refl, ap, ◌∙◌, ◌≢◌, Bool, false, Option, none, some, List, ◌∷◌,
}
use subnet_llm_template.Prelude.Int.{pos, ◌-ℤ◌}
use subnet_llm_template.Exec.{Result, ok, raised, caught}
use subnet_llm_template.Consensus.Data.{RewardsData, set_eq}
use subnet_llm_template.Consensus.Chain.{Chain, State, Submission, RewardEvent, event, attestation}
use subnet_llm_template.Consensus.Attest.{should_attest, do_attest}
use subnet_llm_template.Consensus.Attest.Judgement.{fresh_node_raises}
use subnet_llm_template.Substrate.{Outcome, returned, threw, other, Action, give, proceed, ◌>>=◌}
use subnet_llm_template.Substrate.Interface.{Interface, Value, Session, Tenacity, IsRetrying}
use subnet_llm_template.Substrate.Extrinsics as Extrinsics
use subnet_llm_template.Substrate.Operations as Operations
use subnet_llm_template.Substrate.Operations.{Operation, run}
use subnet_llm_template.Substrate.Events.{get_reward_result_event}
use subnet_llm_template.Substrate.Nodes.{Codec}
use subnet_llm_template.Substrate.Scores.{HealthEntry}
use subnet_llm_template.Substrate.Scores.Shares.{Floats}
use subnet_llm_template.Substrate.Node.{
  Reading, exec, result_of, reward_event, id_value, chain, is_success,
}
use subnet_llm_template.Substrate.Costs.{Adds, Adds-bind, Adds-throw}
use subnet_llm_template.Substrate.Limits.{submissions, submissions-IsMeter, Adds-on_world}
use subnet_llm_template.Substrate.Bounds.{Adds-run}

module _ {S A B : Type 0} where
  mapped :
      (r : Outcome A) (f : A → B) (u : S) {b : B}
      → result_of (proceed r (λ a. give (f a)) u).0 ≡ ok b
      → (a : A) × (f a ≡ b)
  mapped (returned a) f u e = (a, cc)
  mapped (threw x) f u e = cc

  -- what an action that ends by a function of its result has returned
  mapped-ok :
      (m : Action S A) (f : A → B) (s : S) {b : B} {t : S}
      → exec (m >>= λ a. give (f a)) s ≡ (ok b, t)
      → (a : A) × (f a ≡ b)
  mapped-ok m f s e = mapped (m s).0 f (m s).1 (ap (λ p. p.0) e)

module _ {S : Type 0} where
  -- a handler that returns `False` and changes nothing
  caught-false :
      (r : Result Bool) (t : S) → (b : Bool) × (caught r (λ u. (ok false, u)) t ≡ (ok b, t))
  caught-false (ok b) t = (b, refl)
  caught-false raised t = (false, refl)

pair_or_absent : (found : Option (Value × Value)) (a b : ℕ) → reward_event found ≢ event a b
pair_or_absent none a b e = cc
pair_or_absent (some (id, percentage)) a b e = cc

module _ {I : Interface} (T : Tenacity I) (keypair : I.Keypair) (C : Codec I) (F : Floats)
    (health : Action I.World (Option (List HealthEntry))) (reading : Reading I)
    (path : String) where
  abbrev it : Chain
  it = chain T keypair C F health reading path

  -- A node that has kept no scores raises when it is to judge a validator whose scores are not its
  -- own, if the epoch before has a submission and the query for the event of its rewards returns,
  -- whatever that returns. It keeps no scores either way, and so raises again when it is asked again.
  pub should_attest_raises :
      (v m : List RewardsData) (epoch : ℕ) (s : State (Session I)) {submission : Submission}
      {w w' : Session I} {found : RewardEvent}
      → s.node.previous_epoch_data ≡ none
      → set_eq v m ≡ false
      → it.get_rewards_submission s.node.subnet_id (pos epoch -ℤ pos 1) s.world
        ≡ (ok (some submission), w)
      → it.get_reward_result_event s.node.subnet_id epoch w ≡ (ok found, w')
      → should_attest it v m epoch s ≡ (raised, record s { world = w' })
  should_attest_raises v m epoch s {w = w} {found = found} none_kept others before after =
      fresh_node_raises it v m epoch s none_kept others before after λ a b e.
        let (x, r) =
          mapped-ok (get_reward_result_event T s.node.subnet_id epoch) reward_event w after in
        pair_or_absent x a b (r ∙ e)

  module _ (law : IsRetrying T) where
    Adds-is_success :
        (r : Option I.Receipt) → Adds submissions 0 (is_success T keypair C F health reading path r)
    Adds-is_success none = Adds-throw other
    Adds-is_success (some receipt) = Adds-on_world submissions-IsMeter (I.is_success receipt)

    Adds-attest :
        (id : Option ℕ)
        → Adds submissions 4 (
            Extrinsics.attest T keypair (id_value id)
            >>= is_success T keypair C F health reading path)
    unfolding run
    Adds-attest id =
        Adds-bind 4 0 (Adds-run T law submissions-IsMeter (Operations.attest (id_value id)) keypair)
          Adds-is_success

    do_attest_ends :
        (s : State (Session I))
        → (b : Bool) × (do_attest it s ≡ (
          ok b,
          record s { sent = attestation ∷ s.sent; world = (it.attest s.node.subnet_id s.world).1 },
        ))
    unfolding do_attest
    do_attest_ends s =
        caught-false (it.attest s.node.subnet_id s.world).0
          (record s { sent = attestation ∷ s.sent; world = (it.attest s.node.subnet_id s.world).1 })

    -- The one attestation that the thread sends is submitted at most four times, and whatever becomes
    -- of it the thread goes on.
    pub do_attest_within :
        (s : State (Session I))
        → let (r, t) = do_attest it s in
          (t.sent ≡ attestation ∷ s.sent)
          × (submissions t.world ≤ 4 + submissions s.world)
          × ((success : Bool) × (r ≡ ok success))
    do_attest_within s =
        let (b, e) = do_attest_ends s in
        rw e (refl, (Adds-attest s.node.subnet_id).at s.world, (b, refl))
