-- ===== src/Client/Autograd/Whole.antt =====
-- What a whole forward pass has done, and that it ends.
use subnet_llm_template.Prelude.{
  ℕ, zero, suc, ◌+◌, ◌≤◌, ◌<◌, ◌≡◌, refl, Bool, true, false, ◌||◌, arith, ltb, leb, Bool-cases, inl,
  inr, if◌then◌else◌, ◌==◌,
}
use subnet_llm_template.Exec.{pure}
use subnet_llm_template.Exec.Post.{Post, Post-imp, Post-bind}
use subnet_llm_template.Client.Autograd.{
  Remote, Forward, forward_attempts, forward_blocks, start_forward, sequential_forward,
}
use subnet_llm_template.Client.Autograd.Chain.{FindsRoutes, Held, IsReady, Enough}
use subnet_llm_template.Client.Autograd.Attempts.{Tried, forward_attempts-Moved}

module _ {remote : Remote} (routes : FindsRoutes remote) (prompts x : remote.Tensor)
    (start end : ℕ) where
  -- When the pass has returned: it went from `start` to `end`, and that of each span its server gave.
  -- It has not run out of rounds or attempts if there are as many as blocks and retries.
  abbrev pub Passed : ℕ → ℕ → ℕ → Bool → Forward remote → Type 0
  Passed rounds fuel b true s = Held remote prompts x start end s
  Passed rounds fuel b false s = Enough remote fuel 0 → end < rounds + b → ⊥

  abbrev pub Any : Forward remote → Type 0
  Any s = Unit

  at_end :
      (b : ℕ) (s : Forward remote)
      → b ≡ end
      → Held remote prompts x start b s
      → Held remote prompts x start end s
  at_end b s e held = rw e at held

  further :
      (rounds fuel b c : ℕ) (passed : Bool) (t : Forward remote)
      → b < c
      → Passed rounds fuel c passed t
      → Passed (suc rounds) fuel b passed t
  further rounds fuel b c true t less h = h
  further rounds fuel b c false t less h = λ enough many. h enough (omega arith)

  -- After the attempts at one span.
  next_blocks :
      (rounds fuel b : ℕ) (passed : Bool) (t : Forward remote)
      → Tried routes prompts x start end b fuel 0 passed t
      → ((c : ℕ)
          → c ≤ end
          → Held remote prompts x start c t
          → IsReady remote end c t
          → Post Any (Passed rounds fuel c) (forward_blocks remote rounds fuel end prompts t))
      → Post Any
          (Passed (suc rounds) fuel b)
          ((if passed then forward_blocks remote rounds fuel end prompts else pure false) t)
  next_blocks rounds fuel b true t (less, le, held, ready) again =
      Post-imp Any Any (Passed rounds fuel t.block_idx) (Passed (suc rounds) fuel b)
        (forward_blocks remote rounds fuel end prompts t) (λ u h. h)
        (λ passed u h. further rounds fuel b t.block_idx passed u less h)
        (again t.block_idx le held ready)
  next_blocks rounds fuel b false t tried again = λ enough many. tried enough

  forward_blocks-Passed :
      (rounds fuel b : ℕ) (s : Forward remote)
      → b ≤ end
      → Held remote prompts x start b s
      → IsReady remote end b s
      → Post Any (Passed rounds fuel b) (forward_blocks remote rounds fuel end prompts s)
  unfolding forward_blocks
  forward_blocks-Passed zero fuel b s le held ready = λ enough many. omega arith
  forward_blocks-Passed (suc rounds) fuel b s le held ready =
      elim (Bool-cases (ltb s.block_idx end)) [
        | inr over ↦ rw over (at_end b s (ground (arith, held.0)) held)
        | inl more ↦ rw more (
            Post-bind Any (Tried routes prompts x start end b fuel 0) (Passed (suc rounds) fuel b)
              (forward_attempts remote fuel end prompts 0)
              (λ passed.
                if passed then forward_blocks remote rounds fuel end prompts else pure false)
              s
              (Post-imp (Held remote prompts x start b) Any
                (Tried routes prompts x start end b fuel 0)
                (Tried routes prompts x start end b fuel 0)
                (forward_attempts remote fuel end prompts 0 s) (λ u h. tt) (λ passed u h. h)
                (forward_attempts-Moved routes prompts x start end b fuel 0 s
                  (ground (arith, held.0)) held (inr ready)))
              λ passed t tried.
                next_blocks rounds fuel b passed t tried
                  λ c le held ready. forward_blocks-Passed rounds fuel c t le held ready)
      ]

  Enough-Passed :
      (rounds fuel b : ℕ) (passed : Bool) (s : Forward remote)
      → Enough remote fuel 0
      → end < rounds + b
      → Passed rounds fuel b passed s
      → (passed ≡ true) × Held remote prompts x start end s
  Enough-Passed rounds fuel b true s enough many h = (refl, h)
  Enough-Passed rounds fuel b false s enough many h = absurd (h enough many)

  -- Where the sequence manager finds routes and the number of retries is limited, a forward pass with
  -- as many attempts at a span and more rounds than blocks never runs out of them. When it returns it
  -- has gone through spans that follow each other from `start` to `end` exactly, each tensor being
  -- what the server of a span has answered to the one before it.
  pub sequential_forward-Held :
      (rounds fuel length : ℕ) (dummy : Bool) (s : Forward remote)
      → start ≤ end
      → end < rounds + start
      → Enough remote fuel 0
      → Post Any
          (λ passed t. (passed ≡ true) × Held remote prompts x start end t)
          (sequential_forward remote rounds fuel start end dummy length x prompts s)
  unfolding sequential_forward
  sequential_forward-Held rounds fuel length dummy s le many enough =
      elim (Bool-cases (leb end remote.num_blocks)) [
        | inr over ↦ rw over tt
        | inl within ↦ rw within (elim (Bool-cases (dummy || length == remote.num_blocks)) [
          | inr bad ↦ rw bad tt
          | inl good ↦ rw good (
              Post-imp Any Any (Passed rounds fuel start)
                (λ passed t. (passed ≡ true) × Held remote prompts x start end t)
                (forward_blocks remote rounds fuel end prompts
                  (start_forward remote x start s.world))
                (λ u h. tt) (λ passed t h. Enough-Passed rounds fuel start passed t enough many h)
                (forward_blocks-Passed rounds fuel start (start_forward remote x start s.world) le
                  (refl, refl, refl) (inl refl)))
        ])
      ]
