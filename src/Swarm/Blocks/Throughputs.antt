-- ===== src/Swarm/Blocks/Throughputs.antt =====
-- `compute_throughputs` against the sum over the spans that hold a block.
use subnet_llm_template.Prelude.{
  ℕ, zero, suc, ◌+◌, ◌*◌, ◌<◌, ◌≡◌, refl, ap, ◌∙◌, ◌&&◌, some, List, [], ◌∷◌, arith, length,
  get_elem?, replicate, length-replicate, leb, ltb, if◌then◌else◌, Bool-cases, inl, inr,
}
use subnet_llm_template.Prelude.Int.{ℤ, pos, ◌+ℤ◌, pos-add}
use subnet_llm_template.Prelude.Dict.{Dict}
use subnet_llm_template.Swarm.Data.{RemoteSpanInfo, throughput}
use subnet_llm_template.Swarm.Blocks.{
  slice_end, add_range, add_span, insert_span, sorted_spans, add_spans, compute_throughputs,
}

-- The throughput of a span at a block: its own, if the block lies in it.
abbrev pub share : ℕ → ℕ → RemoteSpanInfo → ℕ
share total block span =
    if leb span.start block && ltb block (slice_end total span.end) then throughput span else 0

unfoldable pub total_share : ℕ → ℕ → List RemoteSpanInfo → ℕ
total_share total block [] = 0
total_share total block (s ∷ spans) = share total block s + total_share total block spans

unfoldable pub share_of_all : ℕ → ℕ → Dict RemoteSpanInfo → ℕ
share_of_all total block [] = 0
share_of_all total block ((_, s) ∷ spans) = share total block s + share_of_all total block spans

pub length-add_range :
    (i start end : ℕ) (v : ℤ) (xs : List ℤ) → length (add_range i start end v xs) ≡ length xs
unfolding add_range
length-add_range i start end v [] = refl
length-add_range i start end v (x ∷ xs) = ap suc (length-add_range (i + 1) start end v xs)

pub get_elem?-add_range :
    (i start end : ℕ) (v : ℤ) (xs : List ℤ) (j : ℕ) {x : ℤ}
    → get_elem? xs j ≡ some x
    → get_elem? (add_range i start end v xs) j
      ≡ some (if leb start (i + j) && ltb (i + j) end then x +ℤ v else x)
unfolding add_range
get_elem?-add_range i start end v [] j h = cc
get_elem?-add_range i start end v (y ∷ xs) zero {x} h =
    let same : y ≡ x = cc in let here : i + 0 ≡ i = omega arith in rw (here, same) refl
get_elem?-add_range i start end v (y ∷ xs) (suc j) h =
    let next : i + suc j ≡ i + 1 + j = omega arith in
    rw next (get_elem?-add_range (i + 1) start end v xs j h)

total_share-insert_span :
    (total block : ℕ) (s : RemoteSpanInfo) (spans : List RemoteSpanInfo)
    → total_share total block (insert_span s spans)
      ≡ share total block s + total_share total block spans
unfolding total_share
total_share-insert_span total block s [] = refl
total_share-insert_span total block s (t ∷ spans) = elim (Bool-cases (leb s.peer_id t.peer_id)) [
  | inl first ↦ rw first refl
  | inr later ↦ rw later (omega (arith, total_share-insert_span total block s spans))
]

total_share-sorted_spans :
    (total block : ℕ) (spans : Dict RemoteSpanInfo)
    → total_share total block (sorted_spans spans) ≡ share_of_all total block spans
unfolding total_share share_of_all
total_share-sorted_spans total block [] = refl
total_share-sorted_spans total block ((_, s) ∷ spans) =
    total_share-insert_span total block s (sorted_spans spans)
    ∙ omega (arith, total_share-sorted_spans total block spans)

get_elem?-add_spans :
    (spans : List RemoteSpanInfo) (xs : List ℤ) (total j a : ℕ)
    → length xs ≡ total
    → get_elem? xs j ≡ some (pos (1000 * a))
    → get_elem? (add_spans spans xs) j ≡ some (pos (1000 * (a + total_share total j spans)))
unfolding add_spans total_share
get_elem?-add_spans [] xs total j a e h = h ∙ ap (λ k. some (pos (1000 * k))) (omega arith)
get_elem?-add_spans (s ∷ spans) xs total j a e h =
    get_elem?-add_spans spans (add_span s (pos (1000 * throughput s)) xs) total j
      (a + share total j s)
      (length-add_range 0 s.start (slice_end (length xs) s.end) (pos (1000 * throughput s)) xs ∙ e)
      (get_elem?-add_range 0 s.start (slice_end (length xs) s.end) (pos (1000 * throughput s)) xs j
          h
        ∙ ap some (rw e added))
    ∙ ap (λ k. some (pos (1000 * k))) (omega arith)
  where
    start_at : 0 + j ≡ j
    start_at = omega arith

    added :
        (if leb s.start (0 + j) && ltb (0 + j) (slice_end total s.end)
          then pos (1000 * a) +ℤ pos (1000 * throughput s)
          else pos (1000 * a))
        ≡ pos (1000 * (a + share total j s))
    added = rw start_at (elim (Bool-cases (leb s.start j && ltb j (slice_end total s.end))) [
      | inl within ↦ rw within (pos-add (1000 * a) (1000 * throughput s) ∙ ap pos (omega arith))
      | inr outside ↦ rw outside (ap pos (omega arith))
    ])

get_elem?-replicate : (n j : ℕ) (x : ℤ) → j < n → get_elem? (replicate n x) j ≡ some x
get_elem?-replicate zero j x h = absurd (omega (arith, h))
get_elem?-replicate (suc n) zero x h = refl
get_elem?-replicate (suc n) (suc j) x h = get_elem?-replicate n j x (omega (arith, h))

-- At each block the array has the sum of the throughputs of the spans that hold the block (in
-- thousandths), in whichever order the spans come.
pub compute_throughputs_lem :
    (spans : Dict RemoteSpanInfo) (total_blocks block : ℕ)
    → block < total_blocks
    → get_elem? (compute_throughputs spans total_blocks) block
      ≡ some (pos (1000 * share_of_all total_blocks block spans))
unfolding compute_throughputs
compute_throughputs_lem spans n j h =
    get_elem?-add_spans (sorted_spans spans) (replicate n (pos 0)) n j 0
      (length-replicate n (pos 0)) (get_elem?-replicate n j (pos 0) h)
    ∙ ap (λ k. some (pos (1000 * k))) (omega (arith, total_share-sorted_spans n j spans))
