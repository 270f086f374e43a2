-- ===== src/Substrate/Scores/Shares.antt =====
-- The score of each matched server, and its share of their sum: get_score and the second half of
-- get_blockchain_peers_consensus_data of src/subnet/substrate/utils.py. Floats are a parameter.
use Prim.Native.String.{String}
use subnet_llm_template.Prelude.{
  length, ℕ, Bool, ◌||◌, Option, none, some, List, [], ◌∷◌, ◌++◌, ◌==◌, if◌then◌else◌,
}
use subnet_llm_template.Prelude.Int.{ℤ, pos, ◌+ℤ◌, eq_ℤ}
use subnet_llm_template.Consensus.Data.{RewardsData}
use subnet_llm_template.Substrate.Scores.{ServerRow, HealthEntry, Tally, match_peers, start, start}

module _ {A B : Type 0} where
  infixl 5 ◌>>=◌
  abbrev pub ◌>>=◌ : Option A → (A → Option B) → Option B
  none >>= f = none
  some a >>= f = f a

-- What the code does with floats. `div` is `/` of two integers, `none` where that raises, and `int`
-- drops what stands behind the point.
pub record Floats : Type 1 where
  pub Float : Type 0
  pub div : ℤ → ℤ → Option Float
  pub of_int : ℤ → Float
  pub add : Float → Float → Float
  pub sub : Float → Float → Float
  pub mul : Float → Float → Float
  -- 0.33
  pub penalty : Float
  pub int : Float → ℤ

pub record Consensus : Type 0 where
  pub model_state : String
  pub peers : List RewardsData

abbrev pub broken : Consensus
broken = record { model_state = "broken"; peers = [] }

module _ (F : Floats) where
  -- `none` is a ZeroDivisionError. The number of peers is not used.
  unfoldable pub get_score : ℤ → ℕ → ℕ → ℤ → Option ℤ
  get_score x peers blocks_per_layer total_blocks = do
    max_share_ratio ← F.div (pos blocks_per_layer) total_blocks
    let k = F.mul max_share_ratio (F.of_int (pos 100))
    share ← F.div x total_blocks
    some (
        F.int
          (F.mul (F.add (F.mul (F.mul k share) share) share) (F.of_int (pos 1000000000000000000))))

  -- The score of a relayed server is lessened.
  abbrev pub relayed : Bool → ℤ → ℤ
  relayed using_relay score =
      if using_relay
      then F.int (F.sub (F.of_int score) (F.mul (F.of_int score) F.penalty))
      else score

  -- The loop over the matched servers: the sum of the scores before they are lessened, and the peers.
  unfoldable pub score_peers :
      List ServerRow → ℕ → ℕ → ℤ → ℤ → List RewardsData → Option (ℤ × List RewardsData)
  unfolding get_score
  score_peers [] count num_blocks total scores_sum peers = some (scores_sum, peers)
  score_peers (server ∷ servers) count num_blocks total scores_sum peers = do
    score ← get_score server.span_length count num_blocks total
    score_peers servers count num_blocks total (scores_sum +ℤ score) (
        peers
        ++ (record { peer_id = server.peer_id; score = relayed server.using_relay score } ∷ []))

  -- `int(score / scores_sum * 1e4)`
  abbrev pub share_of : ℤ → ℤ → Option ℤ
  share_of scores_sum score = do
    part ← F.div score scores_sum
    some (F.int (F.mul part (F.of_int (pos 10000))))

  unfoldable pub share_peers : ℤ → List RewardsData → Option (List RewardsData)
  share_peers scores_sum [] = some []
  share_peers scores_sum (peer ∷ peers) = do
    share ← share_of scores_sum peer.score
    rest ← share_peers scores_sum peers
    some (record peer { score = share } ∷ rest)

  abbrev pub score_all : Tally → Option (ℤ × List RewardsData)
  score_all tally =
      score_peers tally.initial_peers (length tally.initial_peers) tally.num_blocks
        tally.total_blocks (pos 0) []

  unfoldable pub score_tally : Tally → Option Consensus
  unfolding score_peers share_peers
  score_tally tally = do
    (scores_sum, scored) ← score_all tally
    peers ← share_peers scores_sum scored
    some (record { model_state = tally.model_state; peers = peers })

  -- From the peer ids of the validators and what `scoring_protocol.run()` has returned.
  unfoldable pub get_blockchain_peers_consensus_data :
      List ℕ → Option (List HealthEntry) → Option Consensus
  unfolding match_peers score_tally
  get_blockchain_peers_consensus_data validators none = some broken
  get_blockchain_peers_consensus_data validators (some health) =
      let tally = match_peers validators health start in
      if length tally.initial_peers == 0 || eq_ℤ tally.total_blocks (pos 0)
      then some broken
      else score_tally tally
