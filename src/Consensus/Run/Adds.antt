-- ===== src/Consensus/Run/Adds.antt =====
-- How many validations and attestations an action sends at most, one rule for each way to build
-- an action.
use subnet_llm_template.Prelude.{
  ℕ, suc, ◌+◌, ◌≤◌, Bool, List, [], ◌∷◌, arith, if◌then◌else◌, if-both,
}
use subnet_llm_template.Exec.{Exec, Result, ok, raised, continue_with, ◌>>=◌, try_or, caught}
use subnet_llm_template.Exec.Keeps.{Keeps}
use subnet_llm_template.Consensus.Data.{RewardsData}
use subnet_llm_template.Consensus.Chain.{
  State, Transaction, validation, attestation, activation, send,
}
use subnet_llm_template.Consensus.Attest.Safety.{sent_of}

unfoldable pub validations : List Transaction → ℕ
validations [] = 0
validations (validation scores ∷ ts) = suc (validations ts)
validations (attestation ∷ ts) = validations ts
validations (activation id ∷ ts) = validations ts

unfoldable pub attestations : List Transaction → ℕ
attestations [] = 0
attestations (validation scores ∷ ts) = attestations ts
attestations (attestation ∷ ts) = suc (attestations ts)
attestations (activation id ∷ ts) = attestations ts

-- From `old` to `new` there are at most `p` more validations and `q` more attestations.
abbrev pub More : ℕ → ℕ → List Transaction → List Transaction → Type 0
More p q old new =
    (validations old ≤ validations new)
    × (validations new ≤ validations old + p)
    × (attestations old ≤ attestations new)
    × (attestations new ≤ attestations old + q)

pub record Adds {W A : Type 0} (p q : ℕ) (m : Exec (State W) A) : Type 0 where
  pub at : (s : State W) → More p q s.sent (m s).1.sent

module _ {W A : Type 0} where
  pub Adds-quiet : (p q : ℕ) (m : Exec (State W) A) → Keeps sent_of m → Adds p q m
  Adds-quiet p q m k = record {
    at = λ s. rw (k.at s) (omega arith, omega arith, omega arith, omega arith);
  }

  pub Adds-if :
      (p q : ℕ) (b : Bool) (m n : Exec (State W) A)
      → Adds p q m
      → Adds p q n
      → Adds p q (if b then m else n)
  Adds-if p q b m n h k = if-both (Adds p q) b m n h k

  pub Adds-weaken :
      (p q p' q' : ℕ) (m : Exec (State W) A) → p ≤ p' → q ≤ q' → Adds p q m → Adds p' q' m
  Adds-weaken p q p' q' m h k a = record {
    at = λ s. let x = a.at s in (omega arith, omega arith, omega arith, omega arith);
  }

  Adds-caught :
      (p q : ℕ) (r : Result A) (h : Exec (State W) A) (old : List Transaction) (t : State W)
      → Adds 0 0 h
      → More p q old t.sent
      → More p q old (caught r h t).1.sent
  Adds-caught p q (ok a) h old t k e = e
  Adds-caught p q raised h old t k e =
      let x = k.at t in (omega arith, omega arith, omega arith, omega arith)

  pub Adds-try_or :
      (p q : ℕ) (m h : Exec (State W) A) → Adds p q m → Adds 0 0 h → Adds p q (try_or m h)
  Adds-try_or p q m h k l = record {
    at = λ s. let (r, t) = m s in Adds-caught p q r h s.sent t l (k.at s);
  }

module _ {W A B : Type 0} where
  Adds-continue :
      (p q p' q' : ℕ) (r : Result A) (f : A → Exec (State W) B) (old : List Transaction)
      (t : State W)
      → ((a : A) → Adds p' q' (f a))
      → More p q old t.sent
      → More (p + p') (q + q') old (continue_with r f t).1.sent
  Adds-continue p q p' q' (ok a) f old t k e =
      let x = (k a).at t in (omega arith, omega arith, omega arith, omega arith)
  Adds-continue p q p' q' raised f old t k e = (omega arith, omega arith, omega arith, omega arith)

  pub Adds-bind :
      (p q p' q' : ℕ) (m : Exec (State W) A) (f : A → Exec (State W) B)
      → Adds p q m
      → ((a : A) → Adds p' q' (f a))
      → Adds (p + p') (q + q') (m >>= f)
  Adds-bind p q p' q' m f h k = record {
    at = λ s. let (r, t) = m s in Adds-continue p q p' q' r f s.sent t k (h.at s);
  }

  -- A first part that sends nothing.
  pub Adds-then :
      (p q : ℕ) (m : Exec (State W) A) (f : A → Exec (State W) B)
      → Keeps sent_of m
      → ((a : A) → Adds p q (f a))
      → Adds p q (m >>= f)
  Adds-then p q m f h k =
      Adds-weaken (0 + p) (0 + q) p q (m >>= f) (omega arith) (omega arith)
        (Adds-bind 0 0 p q m f (Adds-quiet 0 0 m h) k)

module _ {W : Type 0} where
  pub Adds-validation : (scores : List RewardsData) → Adds {W = W} 1 0 (send (validation scores))
  unfolding validations attestations
  Adds-validation scores = record { at = λ s. (omega arith, omega arith, omega arith, omega arith) }

  pub Adds-attestation : Adds {W = W} 0 1 (send attestation)
  unfolding validations attestations
  Adds-attestation = record { at = λ s. (omega arith, omega arith, omega arith, omega arith) }

  pub Adds-activation : (id : ℕ) → Adds {W = W} 0 0 (send (activation id))
  unfolding validations attestations
  Adds-activation id = record { at = λ s. (omega arith, omega arith, omega arith, omega arith) }
