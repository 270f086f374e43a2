-- ===== src/Client/Autograd/Gradients.antt =====
-- What a backward pass has done when it returns, and that it ends.
use mathlib.Core.Path.{subst}
use subnet_llm_template.Prelude.{
  ℕ, suc, ◌<◌, ◌≡◌, refl, sym, ap, ◌∙◌, true, some, List, [], ◌∷◌, ◌++◌, arith, length,
  length-append,
}
use subnet_llm_template.Exec.{ok, pure, ◌>>◌}
use subnet_llm_template.Exec.Post.{Post, Post-bind}
use subnet_llm_template.Client.Connection.{Span}
use subnet_llm_template.Client.Autograd.{Remote}
use subnet_llm_template.Client.Autograd.Chain.{IsChain, IsChain-end}
use subnet_llm_template.Client.Autograd.Backward.{Backward, put_first, pop_last, pop_both}

module _ {A : Type 0} where
  -- `pop` splits a list that is not empty.
  pop_last-split :
      (x : A) (xs : List A)
      → (ys : List A) × (y : A) × (pop_last (x ∷ xs) ≡ some (ys, y)) × (x ∷ xs ≡ ys ++ (y ∷ []))
  pop_last-split x [] = ([], x, refl, refl)
  pop_last-split x (z ∷ zs) =
      let (ys, y, e, split) = pop_last-split z zs in
      (x ∷ ys, y, ap (λ o. some (put_first x o)) e, ap (λ ts. x ∷ ts) split)

IsChain-split :
    (a b : ℕ) (xs : List Span) (s : Span)
    → IsChain a b (xs ++ (s ∷ []))
    → IsChain a s.start xs × (s.start < s.end) × (s.end ≡ b)
IsChain-split a b [] s (start, long, e) = (sym start, omega arith, e)
IsChain-split a b (x ∷ xs) s (start, long, rest) =
    let (chain, more, e) = IsChain-split x.end b xs s rest in ((start, long, chain), more, e)

IsChain-join :
    (a b c : ℕ) (xs ys : List Span) → IsChain a b xs → IsChain b c ys → IsChain a c (xs ++ ys)
IsChain-join a b c [] ys e h = subst (λ n. IsChain n c ys) (sym e) h
IsChain-join a b c (x ∷ xs) ys (start, long, rest) h =
    (start, long, IsChain-join x.end b c xs ys rest h)

module _ (remote : Remote) (prompts : remote.Tensor) where
  -- The server of the span has answered some inputs and the gradients `gs` with `h`.
  abbrev Derived : Span → List remote.Tensor → remote.Tensor → Type 0
  Derived s gs h =
      (inputs : remote.Tensor) × (w : remote.World) × (w' : remote.World) × (grad_prompts : List
        remote.Tensor)
      × (remote.backward s inputs gs (remote.prompts_of prompts s.start s.end) w
          ≡ (ok (h, grad_prompts), w'))

  -- From the gradients `gs` after the spans to `hs` before them, the last span first.
  abbrev Derives : List remote.Tensor → List Span → List remote.Tensor → Type 0
  Derives gs [] hs = gs ≡ hs
  Derives gs (s ∷ spans) hs =
      (mid : List remote.Tensor) × (h : remote.Tensor) × Derives gs spans mid
      × Derived s mid h
      × (hs ≡ h ∷ [])

module _ {remote : Remote} where
  abbrev pub Any : Backward remote → Type 0
  Any s = Unit

module _ (remote : Remote) (prompts : remote.Tensor) (gs : List remote.Tensor) (start end : ℕ) where
  -- The spans from `b` on are done, with these gradients so far.
  abbrev pub Done : ℕ → List remote.Tensor → Type 0
  Done b hs = (spans : List Span) × IsChain b end spans × Derives remote prompts gs spans hs

  -- Between two spans.
  abbrev pub Between : ℕ → Backward remote → Type 0
  Between b s =
      IsChain start b s.forward_sequences
      × (length s.intermediate_inputs ≡ length s.forward_sequences)
      × Done b s.grad_outputs

  -- At a span that ends at `b`.
  abbrev pub At : ℕ → Backward remote → Type 0
  At b s =
      (span : Span) × (inputs : remote.Tensor) × (s.span ≡ some span)
      × (s.inputs ≡ some inputs)
      × (span.end ≡ b)
      × (span.start < b)
      × IsChain start span.start s.forward_sequences
      × (length s.intermediate_inputs ≡ length s.forward_sequences)
      × Done b s.grad_outputs

  abbrev pub Behind : ℕ → Backward remote → Type 0
  Behind b s = (c : ℕ) × (c < b) × Between c s

module _ {A : Type 0} where
  pop_last-length :
      (xs : List A) (n : ℕ)
      → length xs ≡ suc n
      → (ys : List A) × (y : A) × (pop_last xs ≡ some (ys, y)) × (length ys ≡ n)
  pop_last-length [] n e = absurd (omega arith)
  pop_last-length (x ∷ xs) n e =
      let (ys, y, popped, split) = pop_last-split x xs in
      (ys, y, popped, omega (arith, ap length split, length-append ys (y ∷ [])))

some_spans :
    (start b : ℕ) (spans : List Span)
    → IsChain start b spans
    → start < b
    → (s : Span) × (rest : List Span) × (spans ≡ s ∷ rest)
some_spans start b [] e less = absurd (omega arith)
some_spans start b (s ∷ rest) chain less = (s, rest, refl)

module _ {remote : Remote} (prompts : remote.Tensor) (gs : List remote.Tensor) (start end : ℕ) where
  -- Taking the last span, where there is one.
  pub pop_both-At :
      (P : Backward remote → Type 0) (b : ℕ) (s : Backward remote) (span : Span) (spans : List Span)
      → s.forward_sequences ≡ span ∷ spans
      → Between remote prompts gs start end b s
      → Post P (λ _. At remote prompts gs start end b) (pop_both remote s)
  pop_both-At P b s span spans some_spans (chain, same, done) =
      let (rest, last, popped, split) = pop_last-split span spans in
      let (others, inputs, taken, left) =
        pop_last-length s.intermediate_inputs (length spans) (rw some_spans at same) in
      let (before, less, e) =
        IsChain-split start b rest last
          (subst (λ xs. IsChain start b xs) (some_spans ∙ split) chain) in
      rw (taken, ap pop_last some_spans ∙ popped)
        (
          last,
          inputs,
          refl,
          refl,
          e,
          omega (arith, less, e),
          before,
          omega (arith, left, ap length split, length-append rest (last ∷ [])),
          done,
        )

  -- The spans of a new forward pass are put in the place of the one that failed.
  pub backup-At :
      (b : ℕ) (s : Backward remote) (more : List Span) (tensors : List remote.Tensor) (middle : ℕ)
      → IsChain start middle s.forward_sequences
      → IsChain middle b more
      → middle < b
      → length s.intermediate_inputs ≡ length s.forward_sequences
      → length tensors ≡ length more
      → Done remote prompts gs start end b s.grad_outputs
      → Post
          (At remote prompts gs start end b)
          (λ passed t. (passed ≡ true) × At remote prompts gs start end b t)
          ((pop_both remote >> pure true) (record s {
            intermediate_inputs = s.intermediate_inputs ++ tensors;
            forward_sequences = s.forward_sequences ++ more;
          }))
  backup-At b s more tensors middle before after less same as_many done =
      let joined = IsChain-join start middle b s.forward_sequences more before after in
      let le = IsChain-end start middle s.forward_sequences before in
      let (first, rest, e) =
        some_spans start b (s.forward_sequences ++ more) joined (omega arith) in
      let u = record s {
        intermediate_inputs = s.intermediate_inputs ++ tensors;
        forward_sequences = s.forward_sequences ++ more;
      } in
      Post-bind (At remote prompts gs start end b) (λ _. At remote prompts gs start end b)
        (λ passed t. (passed ≡ true) × At remote prompts gs start end b t) (pop_both remote)
        (λ _. pure true) u
        (pop_both-At (At remote prompts gs start end b) b u first rest e (
          joined,
          omega (
            arith,
            length-append s.intermediate_inputs tensors,
            length-append s.forward_sequences more,
          ),
          done,
        ))
        λ _ t at. (refl, at)
