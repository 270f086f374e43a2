-- ===== src/Swarm/Blocks/Best.antt =====
-- `_choose_best_start` against the order in which it takes the least option.
use mathlib.Core.Path.{subst, ◌∙◌}
use subnet_llm_template.Prelude.{
  if-both, ℕ, zero, suc, ◌+◌, ◌-◌, ◌≤◌, ◌<◌, ◌≡◌, refl, ap, false, some, List, [], ◌∷◌, arith,
  length, ltb, Bool-cases, inl, inr,
}
use subnet_llm_template.Prelude.Int.{ℤ}
use subnet_llm_template.Swarm.Blocks.{
  lex_ltb, pair_ltb, window, options, best_of, min_option, index_of, choose_best_start,
}
use subnet_llm_template.Swarm.Blocks.Lexicographic.{
  NoneBelow, better, best_of-start, best_of-NoneBelow,
}

module _ (throughputs : List ℤ) (num_blocks : ℕ) where
  -- A window, with its start, among the first `count`.
  abbrev IsOption : ℕ → List ℤ × ℕ → Type 0
  IsOption count o = (o.0 ≡ window throughputs num_blocks o.1) × (o.1 < count)

  abbrev AreOptions : ℕ → List (List ℤ × ℕ) → Type 0
  AreOptions count [] = Unit
  AreOptions count (o ∷ os) = IsOption count o × AreOptions count os

  options-AreOptions :
      (count i m : ℕ) → i + m ≤ count → AreOptions count (options throughputs num_blocks i m)
  unfolding options
  options-AreOptions count i zero h = tt
  options-AreOptions count i (suc m) h =
      ((refl, omega (arith, h)), options-AreOptions count (i + 1) m (omega (arith, h)))

  best_of-IsOption :
      (count : ℕ) (b : List ℤ × ℕ) (os : List (List ℤ × ℕ))
      → IsOption count b
      → AreOptions count os
      → IsOption count (best_of b os)
  unfolding best_of
  best_of-IsOption count b [] h k = h
  best_of-IsOption count b (o ∷ os) h k =
      best_of-IsOption count (better o b) os (if-both (IsOption count) (pair_ltb o b) o b k.0 h) k.1

  NoneBelow-options :
      (w : List ℤ) (i m j : ℕ)
      → NoneBelow w (options throughputs num_blocks i m)
      → i ≤ j
      → j < i + m
      → lex_ltb (window throughputs num_blocks j) w ≡ false
  unfolding options
  NoneBelow-options w i zero j h low high = absurd (omega (arith, low, high))
  NoneBelow-options w i (suc m) j h low high = elim (Bool-cases (ltb i j)) [
    | inl later ↦ NoneBelow-options w (i + 1) m j h.1 (ground arith) (omega (arith, high))
    | inr here ↦ let same : j ≡ i = ground arith in rw same h.0
  ]

  chosen_lem :
      (count i : ℕ) (os : List (List ℤ × ℕ))
      → AreOptions count os
      → index_of (min_option os) ≡ some i
      → (i < count) × NoneBelow (window throughputs num_blocks i) os
  chosen_lem count i [] h e = cc
  chosen_lem count i (o ∷ os) h e =
      let (is_window, within) = best_of-IsOption count o os h.0 h.1 in
      let same : (best_of o os).1 ≡ i = cc in
      (
        omega (arith, within, same),
        subst (λ w. NoneBelow w (o ∷ os)) (is_window ∙ ap (window throughputs num_blocks) same)
            (best_of-start o os, best_of-NoneBelow o os),
      )

  -- The start that is chosen leaves room for the blocks, and no other start has less throughput:
  -- no window of as many blocks is below the chosen one when both are sorted and compared from their
  -- least throughput on.
  pub choose_best_start_lem :
      {start : ℕ} (i : ℕ)
      → choose_best_start throughputs num_blocks ≡ some start
      → i + num_blocks ≤ length throughputs
      → (start + num_blocks ≤ length throughputs)
        × (lex_ltb (window throughputs num_blocks i) (window throughputs num_blocks start) ≡ false)
  unfolding choose_best_start
  choose_best_start_lem {start} i e h =
      let count = length throughputs + 1 - num_blocks in
      let (within, least) =
        chosen_lem count start (options throughputs num_blocks 0 count)
          (options-AreOptions count 0 count (omega arith)) e in
      (
        omega (arith, within),
        NoneBelow-options (window throughputs num_blocks start) 0 count i least (omega arith)
            (omega (arith, h)),
      )
