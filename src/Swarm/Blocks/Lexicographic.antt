-- ===== src/Swarm/Blocks/Lexicographic.antt =====
-- Python's order on lists and pairs, and the least of some options in it.
use subnet_llm_template.Prelude.{
  ℕ, ◌+◌, ◌≡◌, refl, Bool, true, false, ◌&&◌, ◌||◌, not, List, [], ◌∷◌, arith, ltb, if◌then◌else◌,
  Bool-cases, inl, inr,
}
use subnet_llm_template.Prelude.Int.{ℤ, pos_part, neg_part, ltb_ℤ}
use subnet_llm_template.Swarm.Blocks.{lex_ltb, pair_ltb, best_of}

ltb_ℤ_trans : (x y z : ℤ) → ltb_ℤ x y ≡ true → ltb_ℤ z y ≡ false → ltb_ℤ x z ≡ true
ltb_ℤ_trans x y z h k =
    numbers (pos_part x) (neg_part x) (pos_part y) (neg_part y) (pos_part z) (neg_part z) h k
  where
    numbers :
        (a b c d e f : ℕ)
        → ltb (a + d) (c + b) ≡ true
        → ltb (e + d) (c + f) ≡ false
        → ltb (a + f) (e + b) ≡ true
    numbers a b c d e f h k = ground arith

ltb_ℤ_asym : (x y : ℤ) → ltb_ℤ x y ≡ true → ltb_ℤ y x ≡ false
ltb_ℤ_asym x y h = numbers (pos_part x) (neg_part x) (pos_part y) (neg_part y) h
  where
    numbers : (a b c d : ℕ) → ltb (a + d) (c + b) ≡ true → ltb (c + b) (a + d) ≡ false
    numbers a b c d h = ground arith

ltb_ℤ_not_above : (x y z : ℤ) → ltb_ℤ y z ≡ true → ltb_ℤ y x ≡ false → ltb_ℤ x z ≡ true
ltb_ℤ_not_above x y z h k =
    numbers (pos_part x) (neg_part x) (pos_part y) (neg_part y) (pos_part z) (neg_part z) h k
  where
    numbers :
        (a b c d e f : ℕ)
        → ltb (c + f) (e + d) ≡ true
        → ltb (c + b) (a + d) ≡ false
        → ltb (a + f) (e + b) ≡ true
    numbers a b c d e f h k = ground arith

ltb_ℤ_not_above_twice : (x y z : ℤ) → ltb_ℤ y x ≡ false → ltb_ℤ z y ≡ false → ltb_ℤ z x ≡ false
ltb_ℤ_not_above_twice x y z h k =
    numbers (pos_part x) (neg_part x) (pos_part y) (neg_part y) (pos_part z) (neg_part z) h k
  where
    numbers :
        (a b c d e f : ℕ)
        → ltb (c + b) (a + d) ≡ false
        → ltb (e + d) (c + f) ≡ false
        → ltb (e + b) (a + f) ≡ false
    numbers a b c d e f h k = ground arith

lex_trans_step :
    (xy yx zy yz xz zx l m n : Bool)
    → (xy || (not yx && l)) ≡ true
    → (zy || (not yz && m)) ≡ false
    → (xy ≡ true → zy ≡ false → xz ≡ true)
    → (yz ≡ true → yx ≡ false → xz ≡ true)
    → (yx ≡ false → zy ≡ false → zx ≡ false)
    → (l ≡ true → m ≡ false → n ≡ true)
    → (xz || (not zx && n)) ≡ true
lex_trans_step true yx false yz xz zx l m n h k p q r s = rw (p refl refl) refl
lex_trans_step false false false true xz zx l m n h k p q r s = rw (q refl refl) refl
lex_trans_step false false false false xz zx true false n h k p q r s =
    ground (arith, r refl refl, s refl refl)
lex_trans_step false false false false xz zx true true n h k p q r s = cc
lex_trans_step false false false false xz zx false m n h k p q r s = cc
lex_trans_step false true zy yz xz zx l m n h k p q r s = cc
lex_trans_step true yx true yz xz zx l m n h k p q r s = cc
lex_trans_step false false true yz xz zx l m n h k p q r s = cc

-- Below one list, which is not above another: below the other.
lex_ltb_trans :
    (xs ys zs : List ℤ) → lex_ltb xs ys ≡ true → lex_ltb zs ys ≡ false → lex_ltb xs zs ≡ true
unfolding lex_ltb
lex_ltb_trans [] [] zs h k = cc
lex_ltb_trans [] (y ∷ ys) [] h k = cc
lex_ltb_trans [] (y ∷ ys) (z ∷ zs) h k = refl
lex_ltb_trans (x ∷ xs) [] zs h k = cc
lex_ltb_trans (x ∷ xs) (y ∷ ys) [] h k = cc
lex_ltb_trans (x ∷ xs) (y ∷ ys) (z ∷ zs) h k =
    lex_trans_step (ltb_ℤ x y) (ltb_ℤ y x) (ltb_ℤ z y) (ltb_ℤ y z) (ltb_ℤ x z) (ltb_ℤ z x)
      (lex_ltb xs ys) (lex_ltb zs ys) (lex_ltb xs zs) h k (ltb_ℤ_trans x y z)
      (ltb_ℤ_not_above x y z) (ltb_ℤ_not_above_twice x y z) (lex_ltb_trans xs ys zs)

lex_asym_step :
    (xy yx l m : Bool)
    → (xy || (not yx && l)) ≡ true
    → (xy ≡ true → yx ≡ false)
    → (l ≡ true → m ≡ false)
    → (yx || (not xy && m)) ≡ false
lex_asym_step true yx l m h p q = rw (p refl) refl
lex_asym_step false false true m h p q = q refl
lex_asym_step false false false m h p q = cc
lex_asym_step false true l m h p q = cc

lex_ltb_asym : (xs ys : List ℤ) → lex_ltb xs ys ≡ true → lex_ltb ys xs ≡ false
unfolding lex_ltb
lex_ltb_asym [] [] h = refl
lex_ltb_asym [] (y ∷ ys) h = refl
lex_ltb_asym (x ∷ xs) [] h = cc
lex_ltb_asym (x ∷ xs) (y ∷ ys) h =
    lex_asym_step (ltb_ℤ x y) (ltb_ℤ y x) (lex_ltb xs ys) (lex_ltb ys xs) h (ltb_ℤ_asym x y)
      (lex_ltb_asym xs ys)

lex_ltb_irrefl : (w : List ℤ) → lex_ltb w w ≡ false
lex_ltb_irrefl w = elim (Bool-cases (lex_ltb w w)) [
  | inr beside ↦ beside
  | inl below ↦ lex_ltb_asym w w below
]

-- No option of the list is below the best one.
abbrev pub NoneBelow : List ℤ → List (List ℤ × ℕ) → Type 0
NoneBelow w [] = Unit
NoneBelow w (o ∷ os) = (lex_ltb o.0 w ≡ false) × NoneBelow w os

pair_ltb_not_above : (o b : List ℤ × ℕ) → pair_ltb o b ≡ true → lex_ltb b.0 o.0 ≡ false
pair_ltb_not_above o b h = elim (Bool-cases (lex_ltb o.0 b.0)) [
  | inl below ↦ lex_ltb_asym o.0 b.0 below
  | inr level ↦ elim (Bool-cases (lex_ltb b.0 o.0)) [
    | inr beside ↦ beside
    | inl above ↦ cc (rw (level, above) at h)
  ]
]

pair_ltb_not_below : (o b : List ℤ × ℕ) → pair_ltb o b ≡ false → lex_ltb o.0 b.0 ≡ false
pair_ltb_not_below o b h = elim (Bool-cases (lex_ltb o.0 b.0)) [
  | inl below ↦ cc (rw below at h)
  | inr beside ↦ beside
]

-- What is below a list that is not above another is below the other one too.
not_below_trans : (u v w : List ℤ) → lex_ltb u v ≡ false → lex_ltb v w ≡ false → lex_ltb u w ≡ false
not_below_trans u v w h k = elim (Bool-cases (lex_ltb u w)) [
  | inr beside ↦ beside
  | inl below ↦ cc (lex_ltb_trans u w v below k, h)
]

-- One of two options, and neither is below it.
abbrev pub better : List ℤ × ℕ → List ℤ × ℕ → List ℤ × ℕ
better o b = if pair_ltb o b then o else b

better-old : (o b : List ℤ × ℕ) → lex_ltb b.0 (better o b).0 ≡ false
better-old o b = elim (Bool-cases (pair_ltb o b)) [
  | inl new ↦ rw new (pair_ltb_not_above o b new)
  | inr old ↦ rw old (lex_ltb_irrefl b.0)
]

better-new : (o b : List ℤ × ℕ) → lex_ltb o.0 (better o b).0 ≡ false
better-new o b = elim (Bool-cases (pair_ltb o b)) [
  | inl new ↦ rw new (lex_ltb_irrefl o.0)
  | inr old ↦ rw old (pair_ltb_not_below o b old)
]

pub best_of-start : (b : List ℤ × ℕ) (os : List (List ℤ × ℕ)) → lex_ltb b.0 (best_of b os).0 ≡ false
unfolding best_of
best_of-start b [] = lex_ltb_irrefl b.0
best_of-start b (o ∷ os) =
    not_below_trans b.0 (better o b).0 (best_of (better o b) os).0 (better-old o b)
      (best_of-start (better o b) os)

pub best_of-NoneBelow : (b : List ℤ × ℕ) (os : List (List ℤ × ℕ)) → NoneBelow (best_of b os).0 os
unfolding best_of
best_of-NoneBelow b [] = tt
best_of-NoneBelow b (o ∷ os) = (
  not_below_trans o.0 (better o b).0 (best_of (better o b) os).0 (better-new o b)
      (best_of-start (better o b) os),
  best_of-NoneBelow (better o b) os,
)
