-- ===== src/Substrate/Scores/Limits.antt =====
-- When the scores of an epoch are shares of ten thousand, whatever the floats round to.
use subnet_llm_template.Prelude.Int.{ℤ, pos, negsuc, ◌+ℤ◌, ◌≤ℤ◌, eq_ℤ, pos-add, as_pos, int_laws}
use subnet_llm_template.Prelude.{
  sym, ◌∙◌, ℕ, zero, suc, ◌+◌, ◌≤◌, ◌≡◌, refl, ◌⊎◌, inl, inr, Bool, true, false, Bool-cases, some,
  List, [], ◌∷◌, ◌++◌, length, arith, ◌==◌, All, All-append, All-imp,
}
use subnet_llm_template.Consensus.Data.{RewardsData}
use subnet_llm_template.Substrate.Scores.{ServerRow, HealthEntry, Tally, match_peers, start}
use subnet_llm_template.Substrate.Scores.Shares.{
  Floats, get_score, relayed, score_peers, score_all, share_of, share_peers, score_tally, Consensus,
  broken, get_blockchain_peers_consensus_data,
}
use mathlib.Core.Path.{subst}
use subnet_llm_template.Substrate.Scores.Matched.{sum_spans, match_peers_sums}

-- What IEEE 754 says of the operations on floats that are not negative: a positive divisor gives a
-- result, no operation reverses an order or makes a negative number, and small integers are exact.
-- Integers that no float can hold, for which Python raises OverflowError, are left out of account.
pub record IsRounding (F : Floats) : Type 1 where
  pub le : F.Float → F.Float → Type 0
  pub div_pos :
      (a n : ℕ) → (q : F.Float) × (F.div (pos a) (pos (suc n)) ≡ some q) × le (F.of_int (pos 0)) q
  pub div_self : (n : ℕ) → F.div (pos (suc n)) (pos (suc n)) ≡ some (F.of_int (pos 1))
  pub div-le :
      (a b n : ℕ) (p q : F.Float)
      → a ≤ b
      → F.div (pos a) (pos (suc n)) ≡ some p
      → F.div (pos b) (pos (suc n)) ≡ some q
      → le p q
  pub of_int-le : (n : ℕ) → le (F.of_int (pos 0)) (F.of_int (pos n))
  pub add_pos :
      (p q : F.Float)
      → le (F.of_int (pos 0)) p
      → le (F.of_int (pos 0)) q
      → le (F.of_int (pos 0)) (F.add p q)
  pub mul_pos :
      (p q : F.Float)
      → le (F.of_int (pos 0)) p
      → le (F.of_int (pos 0)) q
      → le (F.of_int (pos 0)) (F.mul p q)
  pub mul-le :
      (p q : F.Float) (n : ℕ)
      → le (F.of_int (pos 0)) p
      → le p q
      → le (F.mul p (F.of_int (pos n))) (F.mul q (F.of_int (pos n)))
  pub one_mul : (n : ℕ) → F.mul (F.of_int (pos 1)) (F.of_int (pos n)) ≡ F.of_int (pos n)
  pub int-le : (p q : F.Float) → le p q → F.int p ≤ℤ F.int q
  pub int-of_int : (n : ℕ) → n ≤ 10000 → F.int (F.of_int (pos n)) ≡ pos n
  pub penalized :
      (n : ℕ)
      → let less = F.int (F.sub (F.of_int (pos n)) (F.mul (F.of_int (pos n)) F.penalty)) in
        (pos 0 ≤ℤ less) × (less ≤ℤ pos n)

abbrev reward : ℕ → ℤ → RewardsData
reward id score = record { peer_id = id; score = score }

-- A score from 0 to `n`.
abbrev pub IsWithin : ℕ → RewardsData → Type 0
IsWithin n peer = (pos 0 ≤ℤ peer.score) × (peer.score ≤ℤ pos n)

-- The span has no negative length.
abbrev pub HasLength : ServerRow → Type 0
HasLength server = pos 0 ≤ℤ server.span_length

module _ {F : Floats} (round : IsRounding F) where
  int_pos : (p : F.Float) → round.le (F.of_int (pos 0)) p → (n : ℕ) × (F.int p ≡ pos n)
  int_pos p h = as_pos (F.int p) (
      subst (λ z. z ≤ℤ F.int p) (round.int-of_int 0 (omega arith))
        (round.int-le (F.of_int (pos 0)) p h))

  relayed-le :
      (using_relay : Bool) (score : ℕ)
      → (r : ℕ) × (relayed F using_relay (pos score) ≡ pos r) × (r ≤ score)
  relayed-le true score =
      let (low, high) = round.penalized score in
      let less = F.int (F.sub (F.of_int (pos score)) (F.mul (F.of_int (pos score)) F.penalty)) in
      let (r, e) = as_pos less low in
      let bound = subst (λ z. z ≤ℤ pos score) e high in (r, e, omega (arith, bound))
  relayed-le false score = (score, refl, omega arith)

  -- A part of the whole has at most ten thousand shares.
  share_of-le :
      (n score : ℕ)
      → score ≤ suc n
      → (share : ℤ) × (share_of F (pos (suc n)) (pos score) ≡ some share)
        × (pos 0 ≤ℤ share)
        × (share ≤ℤ pos 10000)
  share_of-le n score le =
      let (q, e, nonneg) = round.div_pos score n in
      let many = F.of_int (pos 10000) in
      let rounded =
        round.mul-le q (F.of_int (pos 1)) 10000 nonneg
          (round.div-le score (suc n) n q (F.of_int (pos 1)) le e (round.div_self n)) in
      let high =
        round.int-le (F.mul q many) many
          (subst (λ r. round.le (F.mul q many) r) (round.one_mul 10000) rounded) in
      let (share, found) =
        int_pos (F.mul q many) (round.mul_pos q many nonneg (round.of_int-le 10000)) in
      (
        F.int (F.mul q many),
        rw e refl,
        subst (λ z. pos 0 ≤ℤ z) (sym found) (omega arith),
        subst (λ z. F.int (F.mul q many) ≤ℤ z) (round.int-of_int 10000 (omega arith)) high,
      )

  share_peers_step :
      (sum share : ℤ) (peer : RewardsData) (peers rest : List RewardsData)
      → share_of F sum peer.score ≡ some share
      → share_peers F sum peers ≡ some rest
      → share_peers F sum (peer ∷ peers) ≡ some (record peer { score = share } ∷ rest)
  unfolding share_peers
  share_peers_step sum share peer peers rest e r = rw (e, r) refl

  share_peers-IsWithin :
      (n : ℕ) (peers : List RewardsData)
      → All (IsWithin (suc n)) peers
      → (shared : List RewardsData) × (share_peers F (pos (suc n)) peers ≡ some shared)
        × All (IsWithin 10000) shared
  unfolding share_peers
  share_peers-IsWithin n [] h = ([], refl, tt)
  share_peers-IsWithin n (peer ∷ peers) ((low, high), hs) =
      let (m, is_m) = as_pos peer.score low in
      let bound = subst (λ z. z ≤ℤ pos (suc n)) is_m high in
      let (share, e, low_share, high_share) = share_of-le n m (omega (arith, bound)) in
      let (rest, r, all) = share_peers-IsWithin n peers hs in
      let found = subst (λ z. share_of F (pos (suc n)) z ≡ some share) (sym is_m) e in
      (
        record peer { score = share } ∷ rest,
        share_peers_step (pos (suc n)) share peer peers rest found r,
        ((low_share, high_share), all),
      )

  get_score_given :
      (x count blocks total : ℕ)
      → (score : ℕ) × (get_score F (pos x) count blocks (pos (suc total)) ≡ some (pos score))
  unfolding get_score
  get_score_given x count blocks total =
      let (ratio, e, some_ratio) = round.div_pos blocks total in
      let (share, r, some_share) = round.div_pos x total in
      let k = F.mul ratio (F.of_int (pos 100)) in
      let score = F.add (F.mul (F.mul k share) share) share in
      let whole = F.of_int (pos 1000000000000000000) in
      let k_pos = round.mul_pos ratio (F.of_int (pos 100)) some_ratio (round.of_int-le 100) in
      let product_pos =
        round.mul_pos (F.mul k share) share (round.mul_pos k share k_pos some_share) some_share in
      let score_pos = round.add_pos (F.mul (F.mul k share) share) share product_pos some_share in
      let (n, is_n) =
        int_pos (F.mul score whole)
          (round.mul_pos score whole score_pos (round.of_int-le 1000000000000000000)) in
      (n, rw (e, r, is_n) refl)

  IsWithin-more :
      (m n : ℕ) (peers : List RewardsData) → m ≤ n → All (IsWithin m) peers → All (IsWithin n) peers
  IsWithin-more m n peers le h =
      All-imp (IsWithin m) (IsWithin n) peers (λ p (low, high). (low, omega arith)) h

  score_peers_step :
      (server : ServerRow) (servers : List ServerRow) (count blocks : ℕ) (total sum score : ℤ)
      (peers : List RewardsData)
      → get_score F server.span_length count blocks total ≡ some score
      → score_peers F (server ∷ servers) count blocks total sum peers
        ≡ score_peers F servers count blocks total
            (sum +ℤ score)
            (peers ++ (reward server.peer_id (relayed F server.using_relay score) ∷ []))
  unfolding score_peers
  score_peers_step server servers count blocks total sum score peers e = rw e refl

  -- Every score is below the sum, as it is a summand of it, and lessened at most.
  score_peers-IsWithin :
      (servers : List ServerRow) (count blocks total sum : ℕ) (peers : List RewardsData)
      → All HasLength servers
      → All (IsWithin sum) peers
      → (total_score : ℕ) × (scored : List RewardsData) × (score_peers F servers count blocks
            (pos (suc total))
            (pos sum)
            peers
          ≡ some (pos total_score, scored))
        × All (IsWithin total_score) scored
  unfolding score_peers
  score_peers-IsWithin [] count blocks total sum peers lengths h = (sum, peers, refl, h)
  score_peers-IsWithin (server ∷ servers) count blocks total sum peers (len, lengths) h =
      let (x, is_x) = as_pos server.span_length len in
      let (score, given) = get_score_given x count blocks total in
      let e =
        subst (λ z. get_score F z count blocks (pos (suc total)) ≡ some (pos score)) (sym is_x)
          given in
      let (r, is_r, le) = relayed-le server.using_relay score in
      let scored = reward server.peer_id (relayed F server.using_relay (pos score)) in
      let within : IsWithin (sum + score) scored =
        subst (λ z. (pos 0 ≤ℤ z) × (z ≤ℤ pos (sum + score))) (sym is_r)
          (omega arith, omega arith) in
      let all =
        All-append (IsWithin (sum + score)) peers (scored ∷ [])
          (IsWithin-more sum (sum + score) peers (omega arith) h) (within, tt) in
      let (total_score, rest, found, alls) =
        score_peers-IsWithin servers count blocks total (sum + score) (peers ++ (scored ∷ []))
          lengths all in
      (
        total_score,
        rest,
        score_peers_step server servers count blocks (pos (suc total)) (pos sum) (pos score) peers e
            ∙ subst
                (λ z.
                  score_peers F servers count blocks (pos (suc total)) z (peers ++ (scored ∷ []))
                  ≡ some (pos total_score, rest))
                (sym (pos-add sum score)) found,
        alls,
      )

  abbrev Given : Tally → Type 0
  Given tally =
      ((c : Consensus) × (score_tally F tally ≡ some c) × All (IsWithin 10000) c.peers)
      ⊎ ((scored : List RewardsData) × (score_all F tally ≡ some (pos 0, scored)))

  -- What comes of a tally that is not empty, from the sum of its scores.
  within_scored :
      (tally : Tally) (total_score : ℕ) (scored : List RewardsData)
      → score_all F tally ≡ some (pos total_score, scored)
      → All (IsWithin total_score) scored
      → Given tally
  unfolding score_tally
  within_scored tally zero scored e all = inr (scored, e)
  within_scored tally (suc n) scored e all =
      let (shared, r, le) = share_peers-IsWithin n scored all in
      inl (record { model_state = tally.model_state; peers = shared }, rw (e, r) refl, le)

  sum_pos : (servers : List ServerRow) → All HasLength servers → pos 0 ≤ℤ sum_spans servers
  sum_pos [] h = omega arith
  sum_pos (server ∷ servers) (len, lengths) = omega (int_laws, len, sum_pos servers lengths)

  some_total :
      (total : ℤ) → pos 0 ≤ℤ total → eq_ℤ total (pos 0) ≡ false → (t : ℕ) × (total ≡ pos (suc t))
  some_total (pos zero) h e = absurd (cc)
  some_total (pos (suc t)) h e = (t, refl)
  some_total (negsuc n) h e = absurd (omega arith)

  within_tally :
      (tally : Tally)
      → All HasLength tally.initial_peers
      → tally.total_blocks ≡ sum_spans tally.initial_peers
      → eq_ℤ tally.total_blocks (pos 0) ≡ false
      → Given tally
  within_tally tally lengths total some_blocks =
      let nonneg = subst (λ z. pos 0 ≤ℤ z) (sym total) (sum_pos tally.initial_peers lengths) in
      let (t, e) = some_total tally.total_blocks nonneg some_blocks in
      let (total_score, scored, r, all) =
        score_peers-IsWithin tally.initial_peers (length tally.initial_peers) tally.num_blocks t 0
          [] lengths tt in
      let found =
        subst
          (λ z.
            score_peers F tally.initial_peers (length tally.initial_peers) tally.num_blocks z
              (pos 0) []
            ≡ some (pos total_score, scored))
          (sym e) r in
      within_scored tally total_score scored found all

  -- Where no server that is matched has a span of negative length, the scores of an epoch are given, and
  -- each is from 0 to ten thousand, unless the scores of the servers that were matched add up to 0.
  pub scores-IsWithin :
      (validators : List ℕ) (report : List HealthEntry)
      → All HasLength (match_peers validators report start).initial_peers
      → ((c : Consensus) × (get_blockchain_peers_consensus_data F validators (some report) ≡ some c)
          × All (IsWithin 10000) c.peers)
        ⊎ ((scored : List RewardsData) × (score_all F (match_peers validators report start)
              ≡ some (pos 0, scored)))
  unfolding get_blockchain_peers_consensus_data
  scores-IsWithin validators report lengths =
      let tally = match_peers validators report start in
      let (total, _) = match_peers_sums validators report in
      elim (Bool-cases (length tally.initial_peers == 0)) [
        | inl e ↦ inl (broken, rw e refl, tt)
        | inr some_peers ↦ elim (Bool-cases (eq_ℤ tally.total_blocks (pos 0))) [
          | inl e ↦ inl (broken, rw (some_peers, e) refl, tt)
          | inr e ↦ elim (within_tally tally lengths total e) [
            | inl (c, r, le) ↦ inl (c, rw (some_peers, e) r, le)
            | inr (scored, r) ↦ inr (scored, r)
          ]
        ]
      ]
