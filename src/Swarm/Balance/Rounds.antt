-- ===== src/Swarm/Balance/Rounds.antt =====
-- A round over the servers: it returns, and the array of throughputs stays that of the spans.
use mathlib.Core.Path.{subst}
use subnet_llm_template.Prelude.{
  ℕ, ◌+◌, ◌*◌, ◌≤◌, ◌≡◌, refl, ap, ◌∙◌, some, List, [], ◌∷◌, arith, length, ◌==◌, Bool-cases, inl,
  inr,
}
use subnet_llm_template.Prelude.Int.{ℤ, pos}
use subnet_llm_template.Prelude.Dict.{Dict, lookup}
use subnet_llm_template.Swarm.Data.{RemoteSpanInfo, throughput, length as span_length}
use subnet_llm_template.Swarm.Balance.{
  Plan, neg, best_start_for, move_span, take_out, put_back, settle, visit_all,
}
use subnet_llm_template.Swarm.Balance.Accounts.{Accounts, put_back-Accounts, length-add_span}
use subnet_llm_template.Swarm.Balance.Places.{
  AllFit, Rearranged, AllIn, choose_best_start-some, Fits-length, Fits-move, AllFit-lookup,
  AllFit-insert, Rearranged-insert, insert_self, AllIn-insert,
}

module _ (total : ℕ) (start : Dict RemoteSpanInfo) where
  -- The array is right, all spans lie in the swarm, and they are the servers of the start.
  abbrev pub Balanced : Plan → Type 0
  Balanced plan =
      Accounts total plan.throughputs plan.spans
      × AllFit total plan.spans
      × Rearranged start plan.spans

  pub settle-Balanced :
      (peer_id n new_start : ℕ) (span : RemoteSpanInfo) (plan : Plan)
      → lookup peer_id plan.spans ≡ some span
      → span.end ≡ pos (span.start + n)
      → new_start + n ≤ total
      → Balanced plan
      → Balanced (settle peer_id span new_start plan)
  settle-Balanced peer_id n new_start span plan found e le (right, fit, same) =
      let moved = move_span span new_start in
      let (fits, same_server) = Fits-move total n span new_start e le in
      elim (Bool-cases (span.start == new_start)) [
        | inl stays ↦ rw stays (
          subst (Accounts total (put_back span span (take_out span plan.throughputs)))
              (insert_self peer_id plan.spans span found)
              (put_back-Accounts total peer_id span span plan.throughputs plan.spans found right),
          fit,
          same,
        )
        | inr moves ↦ rw moves (
          put_back-Accounts total peer_id span moved plan.throughputs plan.spans found right,
          AllFit-insert total peer_id plan.spans moved fit fits,
          Rearranged-insert peer_id start plan.spans span moved same found same_server,
        )
      ]

  settle-AllIn :
      (ks : List ℕ) (peer_id new_start : ℕ) (span : RemoteSpanInfo) (plan : Plan)
      → AllIn ks plan.spans
      → AllIn ks (settle peer_id span new_start plan).spans
  settle-AllIn ks peer_id new_start span plan h = elim (Bool-cases (span.start == new_start)) [
    | inl stays ↦ rw stays h
    | inr moves ↦ rw moves (AllIn-insert ks peer_id (move_span span new_start) plan.spans h)
  ]

  -- There is always a best place for a span that lies in the swarm.
  pub best_start_for-Fits :
      (span : RemoteSpanInfo) (n : ℕ) (xs : List ℤ)
      → span.end ≡ pos (span.start + n)
      → span.start + n ≤ total
      → length xs ≡ total
      → (new_start : ℕ) × (best_start_for (take_out span xs) (span_length span) ≡ some new_start)
        × (new_start + n ≤ total)
  best_start_for-Fits span n xs e le len =
      let taken = take_out span xs in
      let same = length-add_span span (neg (1001 * throughput span)) xs in
      let (new_start, found, within) = choose_best_start-some taken n (omega (arith, same, len)) in
      (
        new_start,
        ap (best_start_for taken) (Fits-length total n span e) ∙ found,
        omega (arith, within, same, len),
      )

  -- A round over servers of the swarm returns, and afterwards the array has at each block the sum of
  -- the throughputs of the spans, which lie in the swarm and are those of the start, of the same
  -- lengths, where this was so before.
  pub visit_all-Balanced :
      (servers : List ℕ) (plan : Plan)
      → AllIn servers plan.spans
      → Balanced plan
      → (next : Plan) × (visit_all servers plan ≡ some next) × Balanced next
  unfolding visit_all
  visit_all-Balanced [] plan known h = (plan, refl, h)
  visit_all-Balanced (peer_id ∷ servers) plan ((span, found), known) h =
      let (n, e, le) = AllFit-lookup total peer_id plan.spans h.1 found in
      let (new_start, chosen, within) = best_start_for-Fits span n plan.throughputs e le h.0.0 in
      let (next, returned, balanced) =
        visit_all-Balanced servers (settle peer_id span new_start plan)
          (settle-AllIn servers peer_id new_start span plan known)
          (settle-Balanced peer_id n new_start span plan found e within h) in
      (next, rw (found, chosen) returned, balanced)
