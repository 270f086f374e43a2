-- ===== src/Client/Autograd/Recovery.antt =====
-- What the attempts of a backward pass at one span, and the loop.
use mathlib.Core.Path.{subst}
use subnet_llm_template.Prelude.{
  ℕ, suc, ◌+◌, ◌≤◌, ◌<◌, ◌≡◌, refl, sym, Bool, true, false, Option, some, List, arith, length, ◌==◌,
  Bool-cases, inl, inr,
}
use subnet_llm_template.Exec.{Result, ok, raised, Exec}
use subnet_llm_template.Exec.Post.{Post}
use subnet_llm_template.Client.Connection.{Span}
use subnet_llm_template.Client.Autograd.{
  Remote, Forward, is_last, start_forward, sequential_forward,
}
use subnet_llm_template.Client.Autograd.Chain.{IsChain, FindsRoutes, Held, Enough}
use subnet_llm_template.Client.Autograd.Whole.{sequential_forward-Held}
use subnet_llm_template.Client.Autograd.Backward.{
  Backward, pop_last, remotely, begins_at, ends_at, after_backup, restore,
}
use subnet_llm_template.Client.Autograd.Gradients.{Done, At, backup-At}

module _ {remote : Remote} {A : Type 0} where
  -- an action on the world alone
  pub Post-remotely :
      (P : Backward remote → Type 0) (Q : A → Backward remote → Type 0) (m : Exec remote.World A)
      (s : Backward remote)
      → ((a : A) (w : remote.World) → m s.world ≡ (ok a, w) → Q a (record s { world = w }))
      → ((w : remote.World) → m s.world ≡ (raised, w) → P (record s { world = w }))
      → Post P Q (remotely m s)
  Post-remotely P Q m s f g = of_result (m s.world) refl
    where
      of_result :
          (p : Result A × remote.World) → m s.world ≡ p → Post P Q (p.0, record s { world = p.1 })
      of_result (ok a, w) e = f a w e
      of_result (raised, w) e = g w e

-- The span and the inputs that are set.
pub at_span :
    {A B : Type 0} {o : Option A} {i : Option B} {a : A} {b : B} (P : Option A → Option B → Type 0)
    → o ≡ some a
    → i ≡ some b
    → P (some a) (some b)
    → P o i
at_span {i = i} {a = a} P eo ei h =
    subst (λ o. P o i) (sym eo) (subst (λ i. P (some a) i) (sym ei) h)

module _ (remote : Remote) where
  pub Enough-next :
      (fuel attempt_no : ℕ)
      → is_last remote.max_retries attempt_no ≡ false
      → Enough remote (suc fuel) attempt_no
      → Enough remote fuel (attempt_no + 1)
  Enough-next fuel attempt_no more (n, limit, less, enough) =
      (n, limit, unequal n less (rw limit at more), omega arith)
    where
      unequal : (n : ℕ) → attempt_no < n → (attempt_no + 1 == n) ≡ false → attempt_no + 1 < n
      unequal n less e = ground arith

module _ {remote : Remote} (routes : FindsRoutes remote) (prompts : remote.Tensor)
    (gs : List remote.Tensor) (start end rounds fuel : ℕ) (dummy : Bool) (prompts_length : ℕ)
    (many : end < rounds) (enough : Enough remote fuel 0) where
  abbrev Here : ℕ → Backward remote → Type 0
  Here b s = At remote prompts gs start end b s

  abbrev Again : ℕ → Bool → Backward remote → Type 0
  Again b passed s = (passed ≡ true) × Here b s

  after_backup-At :
      (b : ℕ) (s : Backward remote) (span : Span) (inputs : remote.Tensor)
      (p : Result Bool × Forward remote)
      → Here b s
      → span.end ≡ b
      → span.start < b
      → IsChain start span.start s.forward_sequences
      → length s.intermediate_inputs ≡ length s.forward_sequences
      → Done remote prompts gs start end b s.grad_outputs
      → Post
          (λ _. Unit {0})
          (λ passed t. (passed ≡ true) × Held remote prompts inputs span.start span.end t)
          p
      → Post
          (Here b)
          (Again b)
          (after_backup remote rounds fuel dummy prompts_length prompts span s p)
  after_backup-At b s span inputs (raised, t) here e less before same done held = here
  after_backup-At b s span inputs (ok false, t) here e less before same done (passed, held) =
      absurd (cc)
  after_backup-At b s span inputs (ok true, t) here e less before same done
        (passed, (at, chain, computed)) =
      let u = record s { world = t.world } in
      elim (Bool-cases (length t.intermediate_inputs == length t.done_sequences)) [
        | inr bad ↦ rw bad here
        | inl as_many ↦ rw as_many (elim (Bool-cases (begins_at span.start t.done_sequences)) [
          | inr bad ↦ rw bad here
          | inl begins ↦
              rw begins (elim (Bool-cases (ends_at span.end (pop_last t.done_sequences))) [
                | inr bad ↦ rw bad here
                | inl ends ↦ rw ends (
                    backup-At prompts gs start end b u t.done_sequences t.intermediate_inputs
                      span.start before (rw e at chain) less same (ground arith) done)
              ])
        ])
      ]

  pub restore-At :
      (b : ℕ) (s : Backward remote)
      → b ≤ end
      → Here b s
      → Post
          (Here b)
          (Again b)
          (restore remote rounds fuel dummy prompts_length prompts s.span s.inputs s)
  restore-At b s le here =
      let (span, inputs, es, ei, e, less, before, same, done) = here in
      let first = start_forward remote inputs span.start s.world in
      at_span
        (λ o i.
          Post (Here b) (Again b) (restore remote rounds fuel dummy prompts_length prompts o i s))
        es ei
        (after_backup-At b s span inputs
          (sequential_forward remote rounds fuel span.start span.end dummy prompts_length inputs
            prompts first)
          here e less before same done
          (sequential_forward-Held routes prompts inputs span.start span.end rounds fuel
            prompts_length dummy first (omega arith) (omega arith) enough))
