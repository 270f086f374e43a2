-- ===== src/MemoryCache/Handles.antt =====
-- The handles of `_schedule_alloc` and the tensors under them.
use subnet_llm_template.Prelude.{
  ℕ, zero, suc, ◌+◌, ◌≤◌, ◌<◌, ◌≡◌, refl, ◌∙◌, ◌⊎◌, inl, some, List, [], ◌∷◌, ◌++◌, arith, length,
}
use subnet_llm_template.Prelude.Dict.{Dict, lookup, insert, erase, lookup-insert, lookup-erase_ne}
use subnet_llm_template.MemoryCache.{
  TensorDescriptor, Message, handles_from, create_tensors, delete_tensors, receive, drain,
  read_tensors,
}

pub drain-append :
    (ms : List Message) (m : Message) (ts : Dict TensorDescriptor)
    → drain (ms ++ m ∷ []) ts ≡ receive m (drain ms ts)
unfolding drain
drain-append [] m ts = refl
drain-append (x ∷ ms) m ts = drain-append ms m (receive x ts)

-- `h` is none of the `n` handles from `first` on.
abbrev pub Outside : ℕ → ℕ → ℕ → Type 0
Outside h first n = (h < first) ⊎ (first + n ≤ h)

pub lookup-create_tensors :
    (h first n : ℕ) (ds : List TensorDescriptor) (ts : Dict TensorDescriptor)
    → Outside h first n
    → lookup h (create_tensors (handles_from first n) ds ts) ≡ lookup h ts
lookup-create_tensors h first zero ds ts o = refl
lookup-create_tensors h first (suc n) [] ts o = refl
lookup-create_tensors h first (suc n) (d ∷ ds) ts o =
    lookup-create_tensors h (first + 1) n ds (insert first d ts) (omega arith)
    ∙ ground (arith, lookup-insert h first d ts)

pub lookup-delete_tensors :
    (h first n : ℕ) (ts : Dict TensorDescriptor)
    → Outside h first n
    → lookup h (delete_tensors (handles_from first n) ts) ≡ lookup h ts
lookup-delete_tensors h first zero ts o = refl
lookup-delete_tensors h first (suc n) ts o =
    lookup-delete_tensors h (first + 1) n (erase first ts) (omega arith)
    ∙ lookup-erase_ne h first ts (omega arith)

-- The ranges of two leases have no handle in common.
abbrev pub Apart : ℕ → ℕ → ℕ → ℕ → Type 0
Apart f n g m = (f + n ≤ g) ⊎ (g + m ≤ f)

-- Two dicts that agree on the handles of a lease give it the same tensors.
pub read_tensors-agree :
    (first n : ℕ) (ts us : Dict TensorDescriptor)
    → ((h : ℕ) → first ≤ h → h < first + n → lookup h ts ≡ lookup h us)
    → read_tensors (handles_from first n) ts ≡ read_tensors (handles_from first n) us
unfolding read_tensors
read_tensors-agree first zero ts us same = refl
read_tensors-agree first (suc n) ts us same = ground (
  arith,
  same first (omega arith) (omega arith),
  read_tensors-agree (first + 1) n ts us (λ h a b. same h (omega arith) (omega arith)),
)

pub read_tensors-create_tensors :
    (first : ℕ) (ds : List TensorDescriptor) (ts : Dict TensorDescriptor)
    → read_tensors
        (handles_from first (length ds))
        (create_tensors (handles_from first (length ds)) ds ts)
      ≡ some ds
unfolding read_tensors
read_tensors-create_tensors first [] ts = refl
read_tensors-create_tensors first (d ∷ ds) ts = ground (
  arith,
  lookup-create_tensors first (first + 1) (length ds) ds (insert first d ts) (inl (omega arith)),
  lookup-insert first first d ts,
  read_tensors-create_tensors (first + 1) ds (insert first d ts),
)
