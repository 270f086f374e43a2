-- ===== src/Swarm/Balance/Places.antt =====
-- Spans that lie in the swarm and may be moved in it.
use mathlib.Core.Path.{subst}
use subnet_llm_template.Prelude.{
  ℕ, zero, suc, ◌+◌, ◌-◌, ◌≤◌, ◌≡◌, refl, sym, ap, ◌∙◌, some, List, [], ◌∷◌, arith, length, ◌==◌,
  Bool-cases, inl, inr,
}
use subnet_llm_template.Prelude.Int.{ℤ, pos, ◌+ℤ◌, int_laws, eq_of_parts}
use subnet_llm_template.Prelude.Dict.{Dict, lookup, insert, lookup-insert}
use subnet_llm_template.Swarm.Data.{RemoteSpanInfo, length as span_length}
use subnet_llm_template.Swarm.Blocks.{
  choose_best_start, options, best_of, window, index_of, min_option,
}
use subnet_llm_template.Swarm.Blocks.Best.{choose_best_start_lem}
use subnet_llm_template.Swarm.Balance.{move_span}

-- The span lies in the blocks of the swarm.
abbrev Fits : ℕ → RemoteSpanInfo → Type 0
Fits total span = (n : ℕ) × (span.end ≡ pos (span.start + n)) × (span.start + n ≤ total)

abbrev pub AllFit : ℕ → Dict RemoteSpanInfo → Type 0
AllFit total [] = Unit
AllFit total ((_, s) ∷ spans) = Fits total s × AllFit total spans

-- The same server with as many blocks.
abbrev SameServer : RemoteSpanInfo → RemoteSpanInfo → Type 0
SameServer s t =
    (t.peer_id ≡ s.peer_id) × (t.server_info ≡ s.server_info) × (span_length t ≡ span_length s)

-- The same servers with as many blocks each, which may lie elsewhere.
abbrev pub Rearranged : Dict RemoteSpanInfo → Dict RemoteSpanInfo → Type 0
Rearranged [] [] = Unit
Rearranged [] (_ ∷ _) = ⊥
Rearranged (_ ∷ _) [] = ⊥
Rearranged ((k, s) ∷ old) ((i, t) ∷ new) = (i ≡ k) × SameServer s t × Rearranged old new

abbrev IsIn : ℕ → Dict RemoteSpanInfo → Type 0
IsIn k spans = (span : RemoteSpanInfo) × (lookup k spans ≡ some span)

abbrev pub AllIn : List ℕ → Dict RemoteSpanInfo → Type 0
AllIn [] spans = Unit
AllIn (k ∷ ks) spans = IsIn k spans × AllIn ks spans

pub choose_best_start-some :
    (xs : List ℤ) (n : ℕ)
    → n ≤ length xs
    → (start : ℕ) × (choose_best_start xs n ≡ some start) × (start + n ≤ length xs)
unfolding choose_best_start options
choose_best_start-some xs n le = go (length xs + 1 - n) refl
  where
    go :
        (count : ℕ)
        → length xs + 1 - n ≡ count
        → (start : ℕ) × (choose_best_start xs n ≡ some start) × (start + n ≤ length xs)
    go zero e = absurd (omega arith)
    go (suc count) e =
        let best = best_of (window xs n 0, 0) (options xs n 1 count) in
        let chosen : choose_best_start xs n ≡ some best.1 =
          ap (λ c. index_of (min_option (options xs n 0 c))) e in
        (best.1, chosen, (choose_best_start_lem xs n 0 chosen (omega arith)).0)

pub Fits-length :
    (total n : ℕ) (span : RemoteSpanInfo)
    → span.end ≡ pos (span.start + n)
    → span_length span ≡ pos n
unfolding span_length
Fits-length total n span e = eq_of_parts _ _ (rw e (omega int_laws))

pub Fits-move :
    (total n : ℕ) (span : RemoteSpanInfo) (new_start : ℕ)
    → span.end ≡ pos (span.start + n)
    → new_start + n ≤ total
    → Fits total (move_span span new_start) × SameServer span (move_span span new_start)
Fits-move total n span new_start e le =
    let moved : (move_span span new_start).end ≡ pos (new_start + n) =
      ap (λ l. pos new_start +ℤ l) (Fits-length total n span e)
      ∙ eq_of_parts _ _ (omega int_laws) in
    (
      (n, moved, le),
      (
        refl,
        refl,
        Fits-length total n (move_span span new_start) moved ∙ sym (Fits-length total n span e),
      ),
    )

pub AllFit-lookup :
    (total k : ℕ) (spans : Dict RemoteSpanInfo) {s : RemoteSpanInfo}
    → AllFit total spans
    → lookup k spans ≡ some s
    → Fits total s
AllFit-lookup total k [] h e = absurd (cc)
AllFit-lookup total k ((i, s) ∷ spans) {s = t} (fits, rest) e = elim (Bool-cases (k == i)) [
  | inl here ↦
      let same : some s ≡ some t = rw here at e in let eq : s ≡ t = cc in subst (Fits total) eq fits
  | inr there ↦ AllFit-lookup total k spans rest (rw there at e)
]

pub AllFit-insert :
    (total k : ℕ) (spans : Dict RemoteSpanInfo) (s : RemoteSpanInfo)
    → AllFit total spans
    → Fits total s
    → AllFit total (insert k s spans)
AllFit-insert total k [] s h fits = (fits, tt)
AllFit-insert total k ((i, t) ∷ spans) s h fits = elim (Bool-cases (k == i)) [
  | inl here ↦ rw here (fits, h.1)
  | inr there ↦ rw there (h.0, AllFit-insert total k spans s h.1 fits)
]

pub Rearranged-refl : (spans : Dict RemoteSpanInfo) → Rearranged spans spans
Rearranged-refl [] = tt
Rearranged-refl ((k, s) ∷ spans) = (refl, (refl, refl, refl), Rearranged-refl spans)

pub Rearranged-insert :
    (k : ℕ) (old new : Dict RemoteSpanInfo) (s t : RemoteSpanInfo)
    → Rearranged old new
    → lookup k new ≡ some s
    → SameServer s t
    → Rearranged old (insert k t new)
Rearranged-insert k [] [] s t h e same = absurd (cc)
Rearranged-insert k [] (_ ∷ _) s t h e same = absurd h
Rearranged-insert k (_ ∷ _) [] s t h e same = absurd h
Rearranged-insert k ((j, u) ∷ old) ((i, v) ∷ new) s t (key, (id, info, len), rest) e
      (id', info', len') =
    elim (Bool-cases (k == i)) [
      | inl here ↦
          let found : some v ≡ some s = rw here at e in
          let eq : v ≡ s = cc in
          let same_key : k ≡ i = ground arith in
          rw here (
            same_key ∙ key,
            (
              id' ∙ sym (ap (λ s. s.peer_id) eq) ∙ id,
              info' ∙ sym (ap (λ s. s.server_info) eq) ∙ info,
              len' ∙ sym (ap span_length eq) ∙ len,
            ),
            rest,
          )
      | inr there ↦ rw there (
        key,
        (id, info, len),
        Rearranged-insert k old new s t rest (rw there at e) (id', info', len'),
      )
    ]

pub insert_self :
    (k : ℕ) (spans : Dict RemoteSpanInfo) (s : RemoteSpanInfo)
    → lookup k spans ≡ some s
    → insert k s spans ≡ spans
insert_self k [] s e = absurd (cc)
insert_self k ((i, t) ∷ spans) s e = elim (Bool-cases (k == i)) [
  | inl here ↦
      let found : some t ≡ some s = rw here at e in
      let same_key : k ≡ i = ground arith in let same : t ≡ s = cc in rw (here, same_key, same) refl
  | inr there ↦ rw (there, insert_self k spans s (rw there at e)) refl
]

pub AllIn-insert :
    (ks : List ℕ) (k : ℕ) (s : RemoteSpanInfo) (spans : Dict RemoteSpanInfo)
    → AllIn ks spans
    → AllIn ks (insert k s spans)
AllIn-insert [] k s spans h = tt
AllIn-insert (i ∷ ks) k s spans ((t, e), rest) = (here, AllIn-insert ks k s spans rest)
  where
    here : IsIn i (insert k s spans)
    here = elim (Bool-cases (i == k)) [
      | inl same ↦ (s, lookup-insert i k s spans ∙ rw same refl)
      | inr other ↦ (t, lookup-insert i k s spans ∙ rw other e)
    ]
