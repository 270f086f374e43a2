-- ===== src/Swarm/Balance/Accounts.antt =====
-- The array of throughputs against the spans, while spans are taken out, moved and put back.
use subnet_llm_template.Prelude.{
  ℕ, zero, suc, ◌+◌, ◌*◌, ◌<◌, ◌≡◌, refl, sym, ap, ◌∙◌, Bool, true, false, ◌&&◌, some, List, [],
  ◌∷◌, arith, length, get_elem?, leb, ltb, ◌==◌, if◌then◌else◌, Bool-cases, inl, inr,
}
use subnet_llm_template.Prelude.Int.{ℤ, pos, ◌+ℤ◌, pos_part, neg_part, eq_of_parts, int_laws}
use subnet_llm_template.Prelude.Dict.{Dict, lookup, insert}
use subnet_llm_template.Swarm.Data.{RemoteSpanInfo, throughput}
use subnet_llm_template.Swarm.Blocks.{slice_end, add_span}
use subnet_llm_template.Swarm.Blocks.Throughputs.{
  share, share_of_all, length-add_range, get_elem?-add_range,
}
use subnet_llm_template.Swarm.Balance.{neg, take_out, put_back}

-- Whether a block lies in a span.
abbrev pub holds : ℕ → ℕ → RemoteSpanInfo → Bool
holds total block span = leb span.start block && ltb block (slice_end total span.end)

-- The array is as long as the swarm, and has the throughput of all spans at each block.
abbrev pub Accounts : ℕ → List ℤ → Dict RemoteSpanInfo → Type 0
Accounts total xs spans =
    (length xs ≡ total)
    × ((block : ℕ)
        → block < total
        → get_elem? xs block ≡ some (pos (1000 * share_of_all total block spans)))

pub length-add_span :
    (s : RemoteSpanInfo) (v : ℤ) (xs : List ℤ) → length (add_span s v xs) ≡ length xs
length-add_span s v xs = length-add_range 0 s.start (slice_end (length xs) s.end) v xs

pub get_elem?-add_span :
    (s : RemoteSpanInfo) (v : ℤ) (xs : List ℤ) (total j : ℕ) {x : ℤ}
    → length xs ≡ total
    → get_elem? xs j ≡ some x
    → get_elem? (add_span s v xs) j ≡ some (if holds total j s then x +ℤ v else x)
get_elem?-add_span s v xs total j {x} e h =
    let start : 0 + j ≡ j = omega arith in
    get_elem?-add_range 0 s.start (slice_end (length xs) s.end) v xs j h ∙ rw (start, e) refl

pub pos-neg : (n : ℕ) → pos_part (neg n) ≡ 0
pos-neg zero = refl
pos-neg (suc n) = refl

pub neg-neg : (n : ℕ) → neg_part (neg n) ≡ n
neg-neg zero = refl
neg-neg (suc n) = refl

-- What is taken out at a block and put back, `b` being what the other spans have there.
exchange :
    (c d : Bool) (b t u : ℕ)
    → (let x =
          if c
          then pos (1000 * (b + (if c then t else 0))) +ℤ neg (1001 * t)
          else pos (1000 * (b + (if c then t else 0))) in
        let y = if c then x +ℤ pos t else x in if d then y +ℤ pos (1000 * u) else y)
      ≡ pos (1000 * (b + (if d then u else 0)))
exchange false false b t u = refl
exchange false true b t u = eq_of_parts _ _ (omega int_laws)
exchange true false b t u =
    eq_of_parts _ _ (omega (int_laws, pos-neg (1001 * t), neg-neg (1001 * t)))
exchange true true b t u =
    eq_of_parts _ _ (omega (int_laws, pos-neg (1001 * t), neg-neg (1001 * t)))

module _ (total j : ℕ) where
  share_lem : (s : RemoteSpanInfo) → share total j s ≡ (if holds total j s then throughput s else 0)
  share_lem s = refl

  get_elem?-put_back :
      (old new : RemoteSpanInfo) (xs : List ℤ) (b : ℕ)
      → length xs ≡ total
      → get_elem? xs j ≡ some (pos (1000 * (b + share total j old)))
      → get_elem? (put_back old new (take_out old xs)) j
        ≡ some (pos (1000 * (b + share total j new)))
  get_elem?-put_back old new xs b e h =
      let taken = take_out old xs in
      let e' = length-add_span old (neg (1001 * throughput old)) xs ∙ e in
      let noted = add_span old (pos (throughput old)) taken in
      get_elem?-add_span new (pos (1000 * throughput new)) noted total j
        (length-add_span old (pos (throughput old)) taken ∙ e')
        (get_elem?-add_span old (pos (throughput old)) taken total j e'
          (get_elem?-add_span old (neg (1001 * throughput old)) xs total j e h))
      ∙ ap some
          (exchange (holds total j old) (holds total j new) b (throughput old) (throughput new))

  -- Moving one span changes the sum by what it has at the block.
  share-insert :
      (k : ℕ) (old new : RemoteSpanInfo) (spans : Dict RemoteSpanInfo)
      → lookup k spans ≡ some old
      → (b : ℕ) × (share_of_all total j spans ≡ b + share total j old)
        × (share_of_all total j (insert k new spans) ≡ b + share total j new)
  unfolding share_of_all
  share-insert k old new [] h = absurd (cc)
  share-insert k old new ((i, s) ∷ spans) h = elim (Bool-cases (k == i)) [
    | inl here ↦
        let same : some s ≡ some old = rw here at h in
        let same_share : share total j s ≡ share total j old = cc in
        (share_of_all total j spans, omega (arith, same_share), rw here (omega arith))
    | inr there ↦
        let (b, e, e') = share-insert k old new spans (rw there at h) in
        (share total j s + b, omega (arith, e), rw there (omega (arith, e')))
  ]

-- A span that is taken out and put back, here or elsewhere, leaves the array right.
pub put_back-Accounts :
    (total k : ℕ) (old new : RemoteSpanInfo) (xs : List ℤ) (spans : Dict RemoteSpanInfo)
    → lookup k spans ≡ some old
    → Accounts total xs spans
    → Accounts total (put_back old new (take_out old xs)) (insert k new spans)
put_back-Accounts total k old new xs spans found (e, right) = (
  length-add_span new (pos (1000 * throughput new))
        (add_span old (pos (throughput old)) (take_out old xs))
      ∙ length-add_span old (pos (throughput old)) (take_out old xs)
      ∙ length-add_span old (neg (1001 * throughput old)) xs
      ∙ e,
  λ j within.
      let (b, before, after) = share-insert total j k old new spans found in
      get_elem?-put_back total j old new xs b e
        (right j within ∙ ap (λ n. some (pos (1000 * n))) before)
      ∙ ap (λ n. some (pos (1000 * n))) (sym after),
)
