-- ===== src/Substrate/Attempts.antt =====
-- What the decorated functions of chain_functions.py do, attempt by attempt.
use subnet_llm_template.Prelude.{ℕ, zero, suc, ◌≡◌, ◌≢◌, ap, inl, inr, Option, none, some}
use subnet_llm_template.Substrate.{
  Failure, request, exhausted, other, Outcome, returned, threw, Action, or_none, except_request,
}
use subnet_llm_template.Substrate.Interface.{
  Interface, Session, Tenacity, IsRetrying, on_world, sleep,
}
use subnet_llm_template.Substrate.Requests.{after_nothing, with_substrate, read}
use subnet_llm_template.Substrate.Operations.{Question, ask}
use subnet_llm_template.Substrate.Replies.{request_of, ask_lem}
use subnet_llm_template.Substrate.Costs.{outcome-cases}

-- With `n` attempts left at the session `s`, the call ends with `r` at the session `u`. An answer and
-- a failed request both end it, and only other exceptions are retried, seven seconds later.
pub data Attempts {I : Interface} {A : Type 0} (m : Action (Session I) A)
    : ℕ → Session I → Outcome (Option A) → Session I → Type 0 where
  answered :
      {n : ℕ} {s t : Session I} {a : A}
      → m s ≡ (returned a, t)
      → Attempts m (suc n) s (returned (some a)) t
  failed :
      {n : ℕ} {s t : Session I} → m s ≡ (threw request, t) → Attempts m (suc n) s (returned none) t
  retried :
      {n : ℕ} {s t u : Session I} {x : Failure} {r : Outcome (Option A)}
      → m s ≡ (threw x, t)
      → x ≢ request
      → Attempts m (suc n) (sleep 7 t) r u
      → Attempts m (suc (suc n)) s r u
  gave_up :
      {s t : Session I} {x : Failure}
      → m s ≡ (threw x, t)
      → x ≢ request
      → Attempts m 1 s (threw exhausted) t

module _ {I : Interface} {T : Tenacity I} (law : IsRetrying T) {A : Type 0} where
  caught :
      (m : Action (Session I) A) (s : Session I) {p : Outcome A × Session I}
      → m s ≡ p
      → except_request m s ≡ (or_none p.0, p.1)
  caught m s e = ap (λ p. (or_none p.0, p.1)) e

  attempt :
      (m : Action (Session I) A) (n : ℕ) (s : Session I)
      → ((x : Failure) (t : Session I)
          → m s ≡ (threw x, t)
          → x ≢ request
          → except_request m s ≡ (threw x, t)
          → let (r, u) = T.retry 7 (suc n) after_nothing (except_request m) s in
            Attempts m (suc n) s r u)
      → let (r, u) = T.retry 7 (suc n) after_nothing (except_request m) s in
        Attempts m (suc n) s r u
  attempt m n s otherwise = elim (outcome-cases (m s)) [
    | inl (a, t, e) ↦
        rw (law.first 7 n after_nothing (except_request m) s (caught m s e)) (answered e)
    | inr (request, t, e) ↦
        rw (law.first 7 n after_nothing (except_request m) s (caught m s e)) (failed e)
    | inr (exhausted, t, e) ↦ otherwise exhausted t e (λ h. cc) (caught m s e)
    | inr (other, t, e) ↦ otherwise other t e (λ h. cc) (caught m s e)
  ]

  retry-Attempts :
      (m : Action (Session I) A) (n : ℕ) (s : Session I)
      → let (r, u) = T.retry 7 (suc n) after_nothing (except_request m) s in
        Attempts m (suc n) s r u
  retry-Attempts m zero s =
      attempt m zero s
        λ x t e ne c. rw (law.last 7 after_nothing (except_request m) s c) (gave_up e ne)
  retry-Attempts m (suc n) s = attempt m (suc n) s λ x t e ne c.
      rw (law.again 7 n after_nothing (except_request m) s c)
        (retried e ne (retry-Attempts m n (sleep 7 t)))

module _ {I : Interface} (T : Tenacity I) (law : IsRetrying T) where
  -- A question makes up to four attempts: the first that is answered gives the reply, and the first
  -- whose request fails ends it with `None`, with no further attempt. Any other exception is retried
  -- after seven seconds, and raises a `RetryError` at the fourth.
  pub ask-Attempts :
      (q : Question) (s : Session I)
      → Attempts (with_substrate (on_world (request_of I q))) 4 s (ask T q s).0 (ask T q s).1
  unfolding read
  ask-Attempts q s =
      rw (ask_lem T q) (retry-Attempts law (with_substrate (on_world (request_of I q))) 3 s)
