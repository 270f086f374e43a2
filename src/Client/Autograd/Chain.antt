-- ===== src/Client/Autograd/Chain.antt =====
-- What a forward pass has done when it returns.
use mathlib.Core.Path.{subst}
use subnet_llm_template.Prelude.{
  ℕ, ◌+◌, ◌≤◌, ◌<◌, ◌≡◌, refl, sym, true, some, List, [], ◌∷◌, ◌++◌, arith, ◌⊎◌,
}
use subnet_llm_template.Exec.{Result, ok, raised, Exec}
use subnet_llm_template.Exec.Post.{Post}
use subnet_llm_template.Client.Connection.{Span}
use subnet_llm_template.Client.Session.{clip_last}
use subnet_llm_template.Client.Autograd.{Remote, Forward, remotely}

-- Spans that follow each other from `current` to `end` exactly, none of them empty.
abbrev pub IsChain : ℕ → ℕ → List Span → Type 0
IsChain current end [] = current ≡ end
IsChain current end (s ∷ spans) = (s.start ≡ current) × (current < s.end) × IsChain s.end end spans

-- The same, but the last one may reach further.
abbrev pub IsRoute : ℕ → ℕ → List Span → Type 0
IsRoute current end [] = end ≤ current
IsRoute current end (s ∷ spans) =
    (s.start ≡ current) × (current < s.end) × (current < end) × IsRoute s.end end spans

pub clip_last-IsChain :
    (current end : ℕ) (s : Span) (spans : List Span)
    → IsRoute current end (s ∷ spans)
    → IsChain current end (clip_last end s spans)
clip_last-IsChain current end s [] (start, long, short, reached) = (start, omega arith, omega arith)
clip_last-IsChain current end s (t ∷ spans) (start, long, short, rest) =
    (start, long, clip_last-IsChain s.end end t spans rest)

pub IsChain-append :
    (a b : ℕ) (xs : List Span) (s : Span)
    → IsChain a b xs
    → s.start ≡ b
    → b < s.end
    → IsChain a s.end (xs ++ (s ∷ []))
IsChain-append a b [] s h e long = (omega arith, omega arith, refl)
IsChain-append a b (x ∷ xs) s (start, l, rest) e long =
    (start, l, IsChain-append x.end b xs s rest e long)

pub IsChain-end : (a end : ℕ) (spans : List Span) → IsChain a end spans → a ≤ end
IsChain-end a end [] h = omega arith
IsChain-end a end (s ∷ spans) (start, long, rest) = omega (arith, IsChain-end s.end end spans rest)

module _ (remote : Remote) (prompts : remote.Tensor) where
  -- The server of `s` has answered `x` with `y` at some time, and the shape is right.
  abbrev pub Answered : Span → remote.Tensor → remote.Tensor → Type 0
  Answered s x y =
      (w : remote.World) × (w' : remote.World) × (remote.forward s x
          (remote.prompts_of prompts s.start s.end) w
        ≡ (ok y, w'))
      × (remote.same_shape y x ≡ true)

  -- Each tensor is what the server of the span before it has answered to the tensor before it.
  abbrev pub Computes : remote.Tensor → List Span → List remote.Tensor → remote.Tensor → Type 0
  Computes x [] [] y = x ≡ y
  Computes x [] (_ ∷ _) y = ⊥
  Computes x (_ ∷ _) [] y = ⊥
  Computes x (s ∷ spans) (t ∷ tensors) y =
      (t ≡ x) × (z : remote.Tensor) × Answered s x z × Computes z spans tensors y

  pub Computes-append :
      (x y z : remote.Tensor) (spans : List Span) (tensors : List remote.Tensor) (s : Span)
      → Computes x spans tensors y
      → Answered s y z
      → Computes x (spans ++ (s ∷ [])) (tensors ++ (y ∷ [])) z
  Computes-append x y z [] [] s e a = (sym e, z, subst (λ t. Answered s t z) (sym e) a, refl)
  Computes-append x y z [] (t ∷ ts) s h a = absurd h
  Computes-append x y z (u ∷ us) [] s h a = absurd h
  Computes-append x y z (u ∷ us) (t ∷ ts) s (e, v, b, rest) a =
      (e, v, b, Computes-append v y z us ts s rest a)

module _ (remote : Remote) where
  -- The sequence manager finds a route where there are blocks to pass.
  abbrev pub FindsRoutes : Type 0
  FindsRoutes =
      (b e : ℕ) (w w' : remote.World) (spans : List Span)
      → b < e
      → remote.make_sequence b e w ≡ (ok spans, w')
      → IsRoute b e spans

  -- Up to block `b` the spans have been passed, one after the other.
  abbrev pub Held : remote.Tensor → remote.Tensor → ℕ → ℕ → Forward remote → Type 0
  Held prompts x start b s =
      (s.block_idx ≡ b)
      × IsChain start b s.done_sequences
      × Computes remote prompts x s.done_sequences s.intermediate_inputs s.inputs

  -- What is left of the sequence leads on to the end.
  abbrev pub IsReady : ℕ → ℕ → Forward remote → Type 0
  IsReady end b s = (s.sequences ≡ []) ⊎ IsChain b end s.sequences

  -- After a span: it was passed, and what is left of the sequence leads on.
  abbrev pub Moved : remote.Tensor → remote.Tensor → ℕ → ℕ → ℕ → Forward remote → Type 0
  Moved prompts x start end b s =
      (b < s.block_idx)
      × (s.block_idx ≤ end)
      × Held prompts x start s.block_idx s
      × IsReady end s.block_idx s

module _ (remote : Remote) where
  -- As many attempts as are left, where their number is limited.
  abbrev pub Enough : ℕ → ℕ → Type 0
  Enough fuel attempt_no =
      (n : ℕ) × (remote.max_retries ≡ some n) × (attempt_no < n) × (n ≤ fuel + attempt_no)

module _ {remote : Remote} {A : Type 0} where
  -- an action on the world alone
  pub Post-remotely :
      (P : Forward remote → Type 0) (Q : A → Forward remote → Type 0) (m : Exec remote.World A)
      (s : Forward remote)
      → ((a : A) (w : remote.World) → m s.world ≡ (ok a, w) → Q a (record s { world = w }))
      → ((w : remote.World) → m s.world ≡ (raised, w) → P (record s { world = w }))
      → Post P Q (remotely m s)
  Post-remotely P Q m s f g = of_result (m s.world) refl
    where
      of_result :
          (p : Result A × remote.World) → m s.world ≡ p → Post P Q (p.0, record s { world = p.1 })
      of_result (ok a, w) e = f a w e
      of_result (raised, w) e = g w e
