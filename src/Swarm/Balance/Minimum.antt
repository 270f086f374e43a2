-- ===== src/Swarm/Balance/Minimum.antt =====
-- The least throughput, the throughputs at the start, and the quality of a balance.
use mathlib.Core.Path.{subst}
use subnet_llm_template.Prelude.{
  ℕ, zero, suc, ◌-◌, ◌*◌, ◌<◌, ◌≡◌, refl, ap, ◌∙◌, true, some, List, [], ◌∷◌, arith, length,
  get_elem?, replicate, length-replicate, Bool-cases, inl, inr,
}
use subnet_llm_template.Prelude.Int.{
  ℤ, pos, negsuc, ◌-ℤ◌, ◌*ℤ◌, ◌≤ℤ◌, ltb_ℤ, leb_ℤ, min_ℤ, int_laws, eq_of_parts, pos_part, neg_part,
}
use subnet_llm_template.Prelude.Dict.{Dict}
use subnet_llm_template.Swarm.Data.{RemoteSpanInfo, throughput}
use subnet_llm_template.Swarm.Blocks.{add_span, add_spans, sorted_spans, compute_throughputs}
use subnet_llm_template.Swarm.Blocks.Throughputs.{compute_throughputs_lem}
use subnet_llm_template.Swarm.Balance.{min_from}
use subnet_llm_template.Swarm.Balance.Accounts.{Accounts, length-add_span}

-- The least element is one of them, and below none.
abbrev pub Least : ℤ → List ℤ → Type 0
Least m [] = Unit
Least m (x ∷ xs) = (m ≤ℤ x) × Least m xs

min_ℤ-le : (a b : ℤ) → (min_ℤ a b ≤ℤ a) × (min_ℤ a b ≤ℤ b)
min_ℤ-le a b = ground arith

pub min_from-le :
    (best : ℤ) (xs : List ℤ) → (min_from best xs ≤ℤ best) × Least (min_from best xs) xs
min_from-le best [] = (omega arith, tt)
min_from-le best (x ∷ xs) =
    let (le, rest) = min_from-le (min_ℤ best x) xs in
    let (left, right) = min_ℤ-le best x in
    (omega (arith, le, left), (omega (arith, le, right), rest))

pub least-get_elem? :
    (m x : ℤ) (xs : List ℤ) (j : ℕ) → Least m xs → get_elem? xs j ≡ some x → m ≤ℤ x
least-get_elem? m x [] j h e = absurd (cc)
least-get_elem? m x (y ∷ xs) zero h e = let same : y ≡ x = cc in subst (λ x. m ≤ℤ x) same h.0
least-get_elem? m x (y ∷ xs) (suc j) h e = least-get_elem? m x xs j h.1 e

pub min_from-get_elem? :
    (best : ℤ) (xs : List ℤ)
    → (j : ℕ) × (j < suc (length xs)) × (get_elem? (best ∷ xs) j ≡ some (min_from best xs))
min_from-get_elem? best [] = (0, omega arith, refl)
min_from-get_elem? best (x ∷ xs) = elim (Bool-cases (leb_ℤ best x)) [
  | inl old ↦ let (j, within, e) = min_from-get_elem? best xs in rw old (later j within e)
  | inr new ↦
      let (j, within, e) = min_from-get_elem? x xs in rw new (suc j, omega (arith, within), e)
]
  where
    later :
        (j : ℕ)
        → j < suc (length xs)
        → get_elem? (best ∷ xs) j ≡ some (min_from best xs)
        → (i : ℕ) × (i < suc (suc (length xs)))
          × (get_elem? (best ∷ x ∷ xs) i ≡ some (min_from best xs))
    later zero within e = (0, omega arith, e)
    later (suc j) within e = (suc (suc j), omega (arith, within), e)

length-add_spans :
    (spans : List RemoteSpanInfo) (xs : List ℤ) → length (add_spans spans xs) ≡ length xs
unfolding add_spans
length-add_spans [] xs = refl
length-add_spans (s ∷ spans) xs =
    length-add_spans spans (add_span s (pos (1000 * throughput s)) xs)
    ∙ length-add_span s (pos (1000 * throughput s)) xs

pub compute_throughputs-Accounts :
    (spans : Dict RemoteSpanInfo) (total : ℕ)
    → Accounts total (compute_throughputs spans total) spans
unfolding compute_throughputs
compute_throughputs-Accounts spans total = (
  length-add_spans (sorted_spans spans) (replicate total (pos 0)) ∙ length-replicate total (pos 0),
  λ j within. compute_throughputs_lem spans total j within,
)

mul_pos : (a b : ℕ) → pos a *ℤ pos b ≡ pos (a * b)
unfolding ◌*ℤ◌
mul_pos a b = ground arith

minus_one : (q : ℕ) → pos (suc q) -ℤ pos 1 ≡ pos q
minus_one q = eq_of_parts _ _ (omega int_laws)

none_minus_one : pos 0 -ℤ pos 1 ≡ negsuc 0
none_minus_one = eq_of_parts _ _ (omega int_laws)

minus_mul : (b : ℕ) → pos_part (negsuc 0 *ℤ pos b) ≡ 0
unfolding ◌*ℤ◌
minus_mul b = ground arith

not_below : (x : ℤ) (b : ℕ) {n : ℕ} → x ≡ pos n → ltb_ℤ x (negsuc 0 *ℤ pos (1000 * b)) ≡ true → ⊥
not_below x b e h =
    let no_part = minus_mul (1000 * b) in let sign : neg_part x ≡ 0 = ap neg_part e in ground arith

pub quality :
    (q a b : ℕ)
    → ltb_ℤ (pos 1000 *ℤ pos (1000 * a)) ((pos q -ℤ pos 1) *ℤ pos (1000 * b)) ≡ true
    → 1000 * a < (q - 1) * b
quality zero a b h =
    absurd
      (not_below (pos 1000 *ℤ pos (1000 * a)) b (mul_pos 1000 (1000 * a)) (rw none_minus_one at h))
quality (suc q) a b h =
    let less : ltb_ℤ (pos (1000 * (1000 * a))) (pos (q * (1000 * b))) ≡ true =
      rw (minus_one q, mul_pos 1000 (1000 * a), mul_pos q (1000 * b)) at h in
    let times : q * (1000 * b) ≡ 1000 * (q * b) = grind arith in
    let bound : 1000 * (1000 * a) < q * (1000 * b) = ground arith in
    let last : suc q - 1 ≡ q = omega arith in rw last (omega (arith, times, bound))
