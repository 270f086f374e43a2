-- ===== src/Substrate/Scores/Matched.antt =====
-- What the loops over validators, reports and servers have gathered.
use text.Mathlib.Text.{◌==◌ as ◌=ˢ◌}
use mathlib.Core.Path.{subst}
use subnet_llm_template.Prelude.Int.{ℤ, pos, ◌+ℤ◌, +ℤ_assoc, eq_of_parts, int_laws}
use subnet_llm_template.Prelude.{
  sym, ap, ◌∙◌, ℕ, ◌≡◌, refl, inl, inr, Bool, true, false, ◌||◌, Bool-cases, List, [], ◌∷◌, ◌++◌,
  arith, ◌==◌, if-both, All, All-append, All-imp,
}
use subnet_llm_template.Substrate.Scores.{
  ServerRow, ModelEntry, state, model_num_blocks, server_rows, other_entry, HealthEntry,
  model_reports, Tally, add_server, match_rows, read_report, read_reports, read_health, match_peers,
  start,
}

abbrev pub sum_spans : List ServerRow → ℤ
sum_spans [] = pos 0
sum_spans (server ∷ servers) = server.span_length +ℤ sum_spans servers

abbrev pub contains : ℕ → List ℕ → Bool
contains id [] = false
contains id (i ∷ ids) = id == i || contains id ids

sum_spans-append :
    (xs : List ServerRow) (s : ServerRow)
    → sum_spans (xs ++ (s ∷ [])) ≡ sum_spans xs +ℤ s.span_length
sum_spans-append [] s = eq_of_parts _ _ (omega int_laws)
sum_spans-append (x ∷ xs) s =
    ap (λ n. x.span_length +ℤ n) (sum_spans-append xs s)
    ∙ sym (+ℤ_assoc x.span_length (sum_spans xs) s.span_length)

-- The total is that of the servers gathered, which belong to peers that satisfy `P`.
abbrev pub IsTally : (ℕ → Type 0) → Tally → Type 0
IsTally P tally =
    (tally.total_blocks ≡ sum_spans tally.initial_peers)
    × All (λ server. P server.peer_id) tally.initial_peers

module _ (P : ℕ → Type 0) where
  add_server-IsTally :
      (server : ServerRow) (tally : Tally)
      → P server.peer_id
      → IsTally P tally
      → IsTally P (add_server server tally)
  add_server-IsTally server tally p (total, all) = (
    ap (λ n. n +ℤ server.span_length) total ∙ sym (sum_spans-append tally.initial_peers server),
    All-append (λ s. P s.peer_id) tally.initial_peers (server ∷ []) all (p, tt),
  )

  match_rows-IsTally :
      (peer : ℕ) (servers : List ServerRow) (tally : Tally)
      → P peer
      → IsTally P tally
      → IsTally P (match_rows peer servers tally)
  unfolding match_rows
  match_rows-IsTally peer [] tally p h = h
  match_rows-IsTally peer (server ∷ servers) tally p h =
      elim (Bool-cases (peer == server.peer_id)) [
        | inl e ↦ rw e (add_server-IsTally server tally (subst P (ground arith) p) h)
        | inr e ↦ rw e (match_rows-IsTally peer servers tally p h)
      ]

  read_report-IsTally :
      (peer : ℕ) (entries : List ModelEntry) (tally : Tally)
      → P peer
      → IsTally P tally
      → IsTally P (read_report peer entries tally)
  unfolding read_report
  read_report-IsTally peer [] tally p h = h
  read_report-IsTally peer (state model_state ∷ entries) tally p h =
      let next = record tally { model_state = model_state } in
      if-both (IsTally P) (model_state =ˢ "broken") next (read_report peer entries next) h
        (read_report-IsTally peer entries next p h)
  read_report-IsTally peer (model_num_blocks n ∷ entries) tally p h =
      read_report-IsTally peer entries (record tally { num_blocks = n }) p h
  read_report-IsTally peer (server_rows servers ∷ entries) tally p h =
      read_report-IsTally peer entries (match_rows peer servers tally) p
        (match_rows-IsTally peer servers tally p h)
  read_report-IsTally peer (other_entry ∷ entries) tally p h =
      read_report-IsTally peer entries tally p h

  read_reports-IsTally :
      (peer : ℕ) (reports : List (List ModelEntry)) (tally : Tally)
      → P peer
      → IsTally P tally
      → IsTally P (read_reports peer reports tally)
  unfolding read_reports
  read_reports-IsTally peer [] tally p h = h
  read_reports-IsTally peer (report ∷ reports) tally p h =
      read_reports-IsTally peer reports (read_report peer report tally) p
        (read_report-IsTally peer report tally p h)

  read_health-IsTally :
      (peer : ℕ) (health : List HealthEntry) (tally : Tally)
      → P peer
      → IsTally P tally
      → IsTally P (read_health peer health tally)
  unfolding read_health
  read_health-IsTally peer [] tally p h = h
  read_health-IsTally peer (model_reports reports ∷ health) tally p h =
      read_health-IsTally peer health (read_reports peer reports tally) p
        (read_reports-IsTally peer reports tally p h)
  read_health-IsTally peer (other_entry ∷ health) tally p h =
      read_health-IsTally peer health tally p h

  match_peers-IsTally :
      (peers : List ℕ) (health : List HealthEntry) (tally : Tally)
      → All P peers
      → IsTally P tally
      → IsTally P (match_peers peers health tally)
  unfolding match_peers
  match_peers-IsTally [] health tally p h = h
  match_peers-IsTally (peer ∷ peers) health tally (p, ps) h =
      match_peers-IsTally peers health (read_health peer health tally) ps
        (read_health-IsTally peer health tally p h)

contains_self : (ids : List ℕ) → All (λ id. contains id ids ≡ true) ids
contains_self [] = tt
contains_self (i ∷ ids) = (
  ground arith,
  All-imp (λ id. contains id ids ≡ true) (λ id. contains id (i ∷ ids) ≡ true) ids
      (λ id h. ground arith) (contains_self ids),
)

-- The servers that the scores are made of belong to validators of the chain, and the total number of
-- blocks is that of their spans.
pub match_peers_sums :
    (validators : List ℕ) (health : List HealthEntry)
    → IsTally (λ id. contains id validators ≡ true) (match_peers validators health start)
match_peers_sums validators health =
    match_peers-IsTally (λ id. contains id validators ≡ true) validators health start
      (contains_self validators) (refl, tt)
