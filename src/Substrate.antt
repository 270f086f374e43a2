-- ===== src/Substrate.antt =====
-- The chain as src/subnet/substrate/chain_functions.py calls it. Here: Python actions that return or
-- raise, by the kinds of exception which that file and `tenacity` tell apart.
mod Tests
pub mod Interface
pub mod Requests
pub mod Extrinsics
pub mod Queries
pub mod Events
pub mod Costs
pub mod Operations
pub mod Calls
pub mod Replies
pub mod Limits
pub mod Bounds
pub mod Attempts
pub mod Signing
pub mod Nodes
pub mod Scores
pub mod Node
use subnet_llm_template.Prelude.{Option, none, some}

-- A `SubstrateRequestException`, the `RetryError` of a call that has used up its attempts, and any
-- other `Exception`.
pub data Failure : Type 0 where
  request : Failure
  exhausted : Failure
  other : Failure

pub data Outcome (A : Type 0) : Type 0 where
  returned : A → Outcome A
  threw : Failure → Outcome A

-- What was changed before an exception stays changed.
abbrev pub Action : Type 0 → Type 0 → Type 0
Action S A = S → Outcome A × S

module _ {S A : Type 0} where
  abbrev pub give : A → Action S A
  give a s = (returned a, s)

  abbrev pub throw : Failure → Action S A
  throw f s = (threw f, s)

module _ {S A B : Type 0} where
  abbrev pub proceed : Outcome A → (A → Action S B) → Action S B
  proceed (returned a) f s = f a s
  proceed (threw x) f s = (threw x, s)

  infixl 5 ◌>>=◌ ◌>>◌
  abbrev pub ◌>>=◌ : Action S A → (A → Action S B) → Action S B
  ◌>>=◌ m f s = let (r, t) = m s in proceed r f t

  abbrev pub ◌>>◌ : Action S A → Action S B → Action S B
  m >> n = m >>= λ _. n

module _ {A : Type 0} where
  -- `except SubstrateRequestException`: the failure is printed, and the function ends with `None`.
  abbrev pub or_none : Outcome A → Outcome (Option A)
  or_none (returned a) = returned (some a)
  or_none (threw request) = returned none
  or_none (threw exhausted) = threw exhausted
  or_none (threw other) = threw other

  -- A last action that raises takes the place of what came before it.
  abbrev last_word : Outcome A → Outcome (Unit {0}) → Outcome A
  last_word r (returned _) = r
  last_word r (threw f) = threw f

module _ {S A : Type 0} where
  abbrev pub except_request : Action S A → Action S (Option A)
  except_request m s = let (r, t) = m s in (or_none r, t)

  abbrev pub finally : Action S A → Action S (Unit {0}) → Action S A
  finally m last s = let (r, t) = m s in let (x, u) = last t in (last_word r x, u)
