-- ===== src/Consensus/Data.antt =====
-- The scores of an epoch, `RewardsData` of src/subnet/substrate/chain_data.py, and Python's sets of
-- them as `should_attest` uses them. Peer ids are only compared: they are numbers.
use subnet_llm_template.Prelude.Int.{ℤ, eq_ℤ, eq_ℤ_refl}
use subnet_llm_template.Prelude.{
  ℕ, ◌≡◌, refl, ◌≢◌, ◌↔◌, Bool, true, false, ◌&&◌, ◌||◌, not, List, [], ◌∷◌, ◌++◌, arith, ◌==◌,
  if◌then◌else◌, Bool-cases, inl, inr,
}

pub record RewardsData : Type 0 where
  pub peer_id : ℕ
  pub score : ℤ

-- Two `frozenset(….items())` are equal when both fields are.
abbrev pub same : RewardsData → RewardsData → Bool
same a b = a.peer_id == b.peer_id && eq_ℤ a.score b.score

unfoldable pub member : RewardsData → List RewardsData → Bool
member x [] = false
member x (y ∷ ys) = same x y || member x ys

unfoldable pub issubset : List RewardsData → List RewardsData → Bool
issubset [] ys = true
issubset (x ∷ xs) ys = member x ys && issubset xs ys

-- The elements of `xs` that are not in `ys`.
unfoldable pub difference : List RewardsData → List RewardsData → List RewardsData
difference [] ys = []
difference (x ∷ xs) ys = if member x ys then difference xs ys else x ∷ difference xs ys

unfoldable pub symmetric_difference : List RewardsData → List RewardsData → List RewardsData
unfolding difference
symmetric_difference xs ys = difference xs ys ++ difference ys xs

unfoldable pub set_eq : List RewardsData → List RewardsData → Bool
unfolding issubset
set_eq xs ys = issubset xs ys && issubset ys xs

same-eq : (a b : RewardsData) → same a b ≡ true → a ≡ b
same-eq a b h = ground arith

same_refl : (a : RewardsData) → same a a ≡ true
same_refl a = ground (arith, eq_ℤ_refl a.score)

issubset→member :
    (xs ys : List RewardsData)
    → issubset xs ys ≡ true
    → (x : RewardsData) → member x xs ≡ true
    → member x ys ≡ true
unfolding issubset member
issubset→member [] ys h x m = cc
issubset→member (y ∷ xs) ys h x m = ground (arith, same-eq x y, issubset→member xs ys _ x)

member→issubset :
    (xs ys : List RewardsData)
    → ((x : RewardsData) → member x xs ≡ true → member x ys ≡ true)
    → issubset xs ys ≡ true
unfolding issubset member
member→issubset [] ys h = refl
member→issubset (x ∷ xs) ys h =
    ground (arith, same_refl x, h x, member→issubset xs ys (λ y m. h y (ground arith)))

pub issubset_iff :
    (xs ys : List RewardsData)
    → (issubset xs ys ≡ true) ↔ ((x : RewardsData) → member x xs ≡ true → member x ys ≡ true)
issubset_iff xs ys = (issubset→member xs ys, member→issubset xs ys)

pub member-append :
    (x : RewardsData) (ys zs : List RewardsData)
    → member x (ys ++ zs) ≡ (member x ys || member x zs)
unfolding member
member-append x [] zs = refl
member-append x (y ∷ ys) zs = ground (arith, member-append x ys zs)

pub member-difference :
    (x : RewardsData) (xs ys : List RewardsData)
    → member x (difference xs ys) ≡ (member x xs && not (member x ys))
unfolding member difference
member-difference x [] ys = refl
member-difference x (z ∷ xs) ys = elim (Bool-cases (same x z)) [
  | inl e ↦ let q = same-eq x z e in rw q (ground (arith, same_refl z, member-difference z xs ys))
  | inr e ↦ ground (arith, member-difference x xs ys)
]

Bool-eq_of_iff : (a b : Bool) → (a ≡ true → b ≡ true) → (b ≡ true → a ≡ true) → a ≡ b
Bool-eq_of_iff true true f g = refl
Bool-eq_of_iff true false f g = cc (f refl)
Bool-eq_of_iff false true f g = cc (g refl)
Bool-eq_of_iff false false f g = refl

-- Two lists are equal as sets exactly when they have the same members.
pub set_eq_iff :
    (xs ys : List RewardsData)
    → (set_eq xs ys ≡ true) ↔ ((x : RewardsData) → member x xs ≡ member x ys)
unfolding set_eq
set_eq_iff xs ys = (
  λ h x.
      Bool-eq_of_iff (member x xs) (member x ys) ((issubset_iff xs ys).0 (ground arith) x)
        ((issubset_iff ys xs).0 (ground arith) x),
  λ h.
      both ((issubset_iff xs ys).1 (λ x m. rw (← h x) m))
        ((issubset_iff ys xs).1 (λ x m. rw (h x) m)),
)
  where
    both : issubset xs ys ≡ true → issubset ys xs ≡ true → (issubset xs ys && issubset ys xs) ≡ true
    both p q = ground arith

-- The symmetric difference lies in a set exactly when every element on which the two lists differ
-- is in that set.
pub issubset-symmetric_difference_iff :
    (xs ys zs : List RewardsData)
    → (issubset (symmetric_difference xs ys) zs ≡ true)
      ↔ ((x : RewardsData) → member x xs ≢ member x ys → member x zs ≡ true)
unfolding symmetric_difference
issubset-symmetric_difference_iff xs ys zs = (
  λ h x ne. (issubset_iff _ zs).0 h x (inside x ne),
  λ h. (issubset_iff _ zs).1 (λ x m. h x (differs x m)),
)
  where
    parts :
        (x : RewardsData)
        → member x (difference xs ys ++ difference ys xs)
          ≡ (member x xs && not (member x ys) || member x ys && not (member x xs))
    parts x = rw (
      member-append x (difference xs ys) (difference ys xs),
      member-difference x xs ys,
      member-difference x ys xs,
    )

    inside :
        (x : RewardsData)
        → member x xs ≢ member x ys
        → member x (difference xs ys ++ difference ys xs) ≡ true
    inside x ne = rw (parts x) (ground arith)

    differs :
        (x : RewardsData)
        → member x (difference xs ys ++ difference ys xs) ≡ true
        → member x xs ≢ member x ys
    differs x m = let m' = rw (parts x) at m in ground arith
