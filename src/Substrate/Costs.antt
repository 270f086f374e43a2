-- ===== src/Substrate/Costs.antt =====
-- How much an action adds to a measure of the session, such as the extrinsics submitted or the seconds
-- slept between attempts: one rule for each way to build an action.
use subnet_llm_template.Prelude.{
  ℕ, zero, suc, ◌+◌, ◌≤◌, ◌≡◌, refl, Bool, true, false, arith, if◌then◌else◌, ◌⊎◌, inl, inr,
}
use subnet_llm_template.Substrate.{
  Failure, Outcome, returned, threw, Action, give, throw, proceed, ◌>>=◌, except_request,
}
use subnet_llm_template.Substrate.Interface.{Interface, Session, Tenacity, IsRetrying, sleep}

-- At most `n`, whatever the outcome.
pub record Adds {S A : Type 0} (measure : S → ℕ) (n : ℕ) (m : Action S A) : Type 0 where
  pub at : (s : S) → measure (m s).1 ≤ n + measure s

module _ {S A : Type 0} {measure : S → ℕ} where
  pub Adds-give : (a : A) → Adds measure 0 (give a)
  Adds-give a = record { at = λ s. omega arith }

  pub Adds-throw : (f : Failure) → Adds {A = A} measure 0 (throw f)
  Adds-throw f = record { at = λ s. omega arith }

  pub Adds-except_request :
      {n : ℕ} {m : Action S A} → Adds measure n m → Adds measure n (except_request m)
  Adds-except_request h = record { at = h.at }

  pub Adds-if :
      {n : ℕ} (b : Bool) {m k : Action S A}
      → Adds measure n m
      → Adds measure n k
      → Adds measure n (if b then m else k)
  Adds-if true h g = h
  Adds-if false h g = g

  pub Adds-weaker : {m : Action S A} (n k : ℕ) → n ≤ k → Adds measure n m → Adds measure k m
  Adds-weaker n k le h = record { at = λ s. omega (arith, h.at s) }

module _ {S A B : Type 0} {measure : S → ℕ} where
  Adds-proceed :
      (k : ℕ) (r : Outcome A) (g : A → Action S B) (t : S)
      → ((a : A) → Adds measure k (g a))
      → measure (proceed r g t).1 ≤ k + measure t
  Adds-proceed k (returned a) g t h = (h a).at t
  Adds-proceed k (threw f) g t h = omega arith

  pub Adds-bind :
      (n k : ℕ) {m : Action S A} {g : A → Action S B}
      → Adds measure n m
      → ((a : A) → Adds measure k (g a))
      → Adds measure (n + k) (m >>= g)
  Adds-bind n k {m = m} {g = g} h l = record {
    at = λ s. let (r, t) = m s in omega (arith, h.at s, Adds-proceed k r g t l);
  }

module _ {S A : Type 0} where
  pub outcome-cases :
      (p : Outcome A × S)
      → ((a : A) × (t : S) × (p ≡ (returned a, t))) ⊎ ((x : Failure) × (t : S) × (p ≡ (threw x, t)))
  outcome-cases (returned a, t) = inl (a, t, refl)
  outcome-cases (threw x, t) = inr (x, t, refl)

-- What `k` further attempts cost, at `n` for an attempt and `p` for a pause.
abbrev pub spent : ℕ → ℕ → ℕ → ℕ
spent n p zero = n
spent n p (suc k) = n + p + spent n p k

module _ {I : Interface} {T : Tenacity I} (law : IsRetrying T) {A : Type 0} where
  pub Adds-retry :
      {measure : Session I → ℕ} (wait k n p : ℕ) (f : Session I → Session I)
      {m : Action (Session I) A}
      → Adds measure n m
      → ((t : Session I) → measure (f t) ≤ measure t)
      → ((t : Session I) → measure (sleep wait (f t)) ≤ p + measure t)
      → Adds measure (spent n p k) (T.retry wait (suc k) f m)
  Adds-retry wait zero n p f {m = m} h quiet pause = record {
    at = λ s. elim (outcome-cases (m s)) [
      | inl (a, t, e) ↦ rw (law.first wait 0 f m s e) (omega (arith, rw e at (h.at s)))
      | inr (x, t, e) ↦ rw (law.last wait f m s e) (omega (arith, rw e at (h.at s), quiet t))
    ];
  }
  Adds-retry wait (suc k) n p f {m = m} h quiet pause = record {
    at = λ s. elim (outcome-cases (m s)) [
      | inl (a, t, e) ↦ rw (law.first wait (suc k) f m s e) (omega (arith, rw e at (h.at s)))
      | inr (x, t, e) ↦ rw (law.again wait k f m s e) (
          omega (
            arith,
            rw e at (h.at s),
            pause t,
            (Adds-retry wait k n p f h quiet pause).at (sleep wait (f t)),
          ))
    ];
  }
