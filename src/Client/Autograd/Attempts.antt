-- ===== src/Client/Autograd/Attempts.antt =====
-- What the attempts of a forward pass at one span do to what was passed before.
use subnet_llm_template.Prelude.{
  ◌==◌, ℕ, zero, suc, ◌+◌, ◌<◌, ◌≡◌, refl, Bool, true, false, ◌||◌, none, some, List, [], ◌∷◌,
  arith, leb, Bool-cases, inl, inr, ◌⊎◌, if◌then◌else◌,
}
use subnet_llm_template.Exec.{Result, ok, raised, pure, ◌>>=◌, ◌>>◌}
use subnet_llm_template.Exec.Post.{Post, Post-imp, Post-bind}
use subnet_llm_template.Client.Connection.{Span}
use subnet_llm_template.Client.Session.{clip}
use subnet_llm_template.Client.Autograd.{
  peer_of, is_last, Remote, Forward, self, update, check, remotely, is_empty, reroute, popleft,
  pass_span, through, try_forward, failed, then_again, forward_attempts,
}
use subnet_llm_template.Client.Autograd.Chain.{
  IsChain, IsRoute, clip_last-IsChain, IsChain-append, IsChain-end, Computes-append, FindsRoutes,
  Held, IsReady, Moved, Enough, Post-remotely,
}

module _ {remote : Remote} (routes : FindsRoutes remote) (prompts x : remote.Tensor)
    (start end b : ℕ) where
  abbrev Is : Forward remote → Type 0
  Is = Held remote prompts x start b

  -- ready to pass the first span of a sequence that is not empty
  abbrev Led : Forward remote → Type 0
  Led s = Is s × IsChain b end s.sequences

  -- what the sequence manager has given
  abbrev Found : List Span → Forward remote → Type 0
  Found spans s = Is s × IsRoute b end spans

  clipped-Led :
      (spans : List Span) (s : Forward remote)
      → Found spans s
      → Post Is
          (λ _. Led)
          ((do
            update (λ s. record s { sequences = spans })
            clipped ← clip end spans
            update (λ s. record s { sequences = clipped }))
            s)
  clipped-Led [] s (is, route) = is
  clipped-Led (span ∷ spans) s (is, route) = (is, clip_last-IsChain b end span spans route)

  reroute-Led : (s : Forward remote) → b < end → Is s → Post Is (λ _. Led) (reroute remote end s)
  reroute-Led s below (at, chain, computed) =
      Post-bind Is (λ spans. Found spans) (λ _. Led)
        (remotely (remote.make_sequence s.block_idx end))
        (λ spans. do
          update (λ s. record s { sequences = spans })
          clipped ← clip end spans
          update (λ s. record s { sequences = clipped }))
        s
        (Post-remotely Is (λ spans. Found spans) (remote.make_sequence s.block_idx end) s
          (λ spans w e. (
            (at, chain, computed),
            rw at at (routes s.block_idx end s.world w spans (omega arith) e),
          ))
          (λ w e. (at, chain, computed)))
        clipped-Led

  -- the server of the span has answered
  abbrev Output : Span → Forward remote → remote.Tensor → Forward remote → Type 0
  Output span s outputs t =
      (w : remote.World) × (t ≡ record s { world = w })
      × (remote.forward span s.inputs (remote.prompts_of prompts span.start span.end) s.world
          ≡ (ok outputs, w))

  through-Moved :
      (s : Forward remote) (span : Span)
      → Is s
      → span.start ≡ b
      → b < span.end
      → IsChain span.end end s.sequences
      → Post Is (λ _. Moved remote prompts x start end b) (through remote prompts span s)
  through-Moved s span (at, chain, computed) first long rest =
      Post-bind Is (λ outputs t. Output span s outputs t) (λ _. Moved remote prompts x start end b)
        (remotely (remote.forward span s.inputs (remote.prompts_of prompts span.start span.end)))
        (λ outputs.
          check (remote.same_shape outputs s.inputs) >> update (pass_span remote span outputs))
        s
        (Post-remotely Is (λ outputs t. Output span s outputs t)
          (remote.forward span s.inputs (remote.prompts_of prompts span.start span.end)) s
          (λ outputs w e. (w, refl, e)) (λ w e. (at, chain, computed)))
        λ outputs t (w, same, answer).
          rw same (elim (Bool-cases (remote.same_shape outputs s.inputs)) [
            | inl fits ↦ rw fits (
              long,
              IsChain-end span.end end s.sequences rest,
              (
                refl,
                IsChain-append start b s.done_sequences span chain first long,
                Computes-append remote prompts x s.inputs outputs s.done_sequences
                    s.intermediate_inputs span computed (s.world, w, answer, fits),
              ),
              inr rest,
            )
            | inr differs ↦ rw differs (at, chain, computed)
          ])

  popleft-Moved :
      (s : Forward remote) (spans : List Span)
      → b < end
      → Is s
      → IsChain b end spans
      → Post Is
          (λ _. Moved remote prompts x start end b)
          ((popleft remote spans >>= through remote prompts) s)
  popleft-Moved s [] below is chain = is
  popleft-Moved s (span ∷ rest) below is (first, long, chain) =
      through-Moved (record s { sequences = rest; span = some span }) span is first long chain

  -- One attempt at the blocks from `b` on.
  try_forward-Moved :
      (s : Forward remote) (attempt_no : ℕ)
      → b < end
      → Is s
      → (0 < attempt_no) ⊎ IsReady remote end b s
      → Post Is
          (λ _. Moved remote prompts x start end b)
          (try_forward remote end prompts attempt_no s)
  unfolding try_forward
  try_forward-Moved s attempt_no below is ready =
      Post-bind Is (λ _. Led) (λ _. Moved remote prompts x start end b)
        (if is_empty s.sequences || leb 1 attempt_no then reroute remote end else pure tt)
        (λ _. do s ← self; span ← popleft remote s.sequences; through remote prompts span)
        (record s { span = none }) (led (record s { span = none }) is ready)
        λ _ t (held, chain). popleft-Moved t t.sequences below held chain
    where
      led :
          (s : Forward remote)
          → Is s
          → (0 < attempt_no) ⊎ IsReady remote end b s
          → Post Is
              (λ _. Led)
              ((if is_empty s.sequences || leb 1 attempt_no then reroute remote end else pure tt) s)
      led s is ready = elim (Bool-cases (is_empty s.sequences || leb 1 attempt_no)) [
        | inl anew ↦ rw anew (reroute-Led s below is)
        | inr kept ↦ elim ready [
          | inl later ↦ absurd (ground arith)
          | inr (inl none_left) ↦ absurd (ground (arith, rw none_left at kept))
          | inr (inr chain) ↦ rw kept (is, chain)
        ]
      ]

  abbrev GoesOn : ℕ → Unit {0} → Forward remote → Type 0
  GoesOn attempt_no _ s = Is s × (is_last remote.max_retries attempt_no ≡ false)

  failed-Is :
      (s : Forward remote) (attempt_no : ℕ)
      → Is s
      → Post Is (GoesOn attempt_no) (failed remote attempt_no s)
  unfolding failed
  failed-Is s attempt_no is =
      let noted = record s { world = remote.on_request_failure (peer_of s.span) s.world } in
      elim (Bool-cases (is_last remote.max_retries attempt_no)) [
        | inl over ↦ rw over is
        | inr more ↦ rw more (
            Post-remotely Is (GoesOn attempt_no) (remote.sleep_before_retry attempt_no) noted
              (λ a w e. (is, more)) (λ w e. is))
      ]

  abbrev pub Tried : ℕ → ℕ → Bool → Forward remote → Type 0
  Tried fuel attempt_no true s = Moved remote prompts x start end b s
  Tried fuel attempt_no false s = Enough remote fuel attempt_no → ⊥

  later :
      (fuel attempt_no : ℕ)
      → is_last remote.max_retries attempt_no ≡ false
      → (passed : Bool) (t : Forward remote) → Tried fuel (attempt_no + 1) passed t
      → Tried (suc fuel) attempt_no passed t
  later fuel attempt_no more true t h = h
  later fuel attempt_no more false t h =
      λ (n, limit, less, enough). h (n, limit, not_last n limit less, omega arith)
    where
      unequal : (n : ℕ) → attempt_no < n → (attempt_no + 1 == n) ≡ false → attempt_no + 1 < n
      unequal n less e = ground arith

      not_last : (n : ℕ) → remote.max_retries ≡ some n → attempt_no < n → attempt_no + 1 < n
      not_last n limit less = unequal n less (rw limit at more)

  after_attempt :
      (fuel attempt_no : ℕ) (r : Result (Unit {0})) (t : Forward remote)
      → ((u : Forward remote)
          → Is u
          → Post Is
              (Tried fuel (attempt_no + 1))
              (forward_attempts remote fuel end prompts (attempt_no + 1) u))
      → Post Is (λ _. Moved remote prompts x start end b) (r, t)
      → Post Is (Tried (suc fuel) attempt_no) (
          then_again remote
            (forward_attempts remote fuel end prompts (attempt_no + 1))
            attempt_no
            r
            t)
  after_attempt fuel attempt_no (ok _) t again moved = moved
  after_attempt fuel attempt_no raised t again held =
      Post-bind Is (GoesOn attempt_no) (Tried (suc fuel) attempt_no) (failed remote attempt_no)
        (λ _. forward_attempts remote fuel end prompts (attempt_no + 1)) t
        (failed-Is t attempt_no held)
        λ _ u (is, more).
          Post-imp Is Is (Tried fuel (attempt_no + 1)) (Tried (suc fuel) attempt_no)
            (forward_attempts remote fuel end prompts (attempt_no + 1) u) (λ t h. h)
            (later fuel attempt_no more) (again u is)

  -- The attempts at the blocks from `b` on.
  pub forward_attempts-Moved :
      (fuel attempt_no : ℕ) (s : Forward remote)
      → b < end
      → Is s
      → (0 < attempt_no) ⊎ IsReady remote end b s
      → Post Is (Tried fuel attempt_no) (forward_attempts remote fuel end prompts attempt_no s)
  unfolding forward_attempts
  forward_attempts-Moved zero attempt_no s below is ready =
      λ enough. omega (arith, enough.2, enough.3)
  forward_attempts-Moved (suc fuel) attempt_no s below is ready =
      let (r, t) = try_forward remote end prompts attempt_no s in
      after_attempt fuel attempt_no r t
        (λ u held. forward_attempts-Moved fuel (attempt_no + 1) u below held (inl (omega arith)))
        (try_forward-Moved s attempt_no below is ready)
