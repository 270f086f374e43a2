-- ===== src/Prelude/Dict.antt =====
-- Python's `dict` with keys that are only compared (peer ids, account ids, handles), as an
-- association list in insertion order.
use subnet_llm_template.Prelude.Tests.{◌==◌, if◌then◌else◌}
use Prim.Native.Nat.{ℕ}
use mathlib.Core.Path.{◌≡◌, refl}
use mathlib.Core.Logic.{◌≢◌}
use mathlib.Core.Option.{Option, none, some}
use mathlib.Core.List.{List, [], ◌∷◌}
use native.Mathlib.Omega.{arith}

abbrev pub Dict : Type 0 → Type 0
Dict V = List (ℕ × V)

module _ {V : Type 0} where
  -- `d.get(k)`
  abbrev pub lookup : ℕ → Dict V → Option V
  lookup k [] = none
  lookup k ((j, v) ∷ d) = if k == j then some v else lookup k d

  -- no key is listed twice
  abbrev pub IsDict : Dict V → Type 0
  IsDict [] = Unit
  IsDict ((k, v) ∷ d) = (lookup k d ≡ none) × IsDict d

  -- `d.pop(k, None)`
  abbrev pub erase : ℕ → Dict V → Dict V
  erase k [] = []
  erase k (e ∷ rest) = if k == e.0 then rest else e ∷ erase k rest

  -- `d[k] = v`: a key that is there keeps its place
  abbrev pub insert : ℕ → V → Dict V → Dict V
  insert k v [] = (k, v) ∷ []
  insert k v (e ∷ rest) = if k == e.0 then (k, v) ∷ rest else e ∷ insert k v rest

  pub lookup-insert :
      (j k : ℕ) (v : V) (d : Dict V)
      → lookup j (insert k v d) ≡ (if j == k then some v else lookup j d)
  lookup-insert j k v [] = ground arith
  lookup-insert j k v (e ∷ d) = ground (arith, lookup-insert j k v d)

  pub insert-IsDict : (k : ℕ) (v : V) (d : Dict V) → IsDict d → IsDict (insert k v d)
  insert-IsDict k v [] h = (refl, tt)
  insert-IsDict k v (e ∷ d) h = ground (arith, insert-IsDict k v d h.1, lookup-insert e.0 k v d)

  pub lookup-erase_ne : (j k : ℕ) (d : Dict V) → j ≢ k → lookup j (erase k d) ≡ lookup j d
  lookup-erase_ne j k [] ne = refl
  lookup-erase_ne j k (e ∷ rest) ne = ground (arith, lookup-erase_ne j k rest ne)

  pub lookup-erase_self : (k : ℕ) (d : Dict V) → IsDict d → lookup k (erase k d) ≡ none
  lookup-erase_self k [] h = refl
  lookup-erase_self k (e ∷ d) h = ground (arith, lookup-erase_self k d h.1)

  pub erase-IsDict : (k : ℕ) (d : Dict V) → IsDict d → IsDict (erase k d)
  erase-IsDict k [] h = tt
  erase-IsDict k (e ∷ d) h = ground (arith, erase-IsDict k d h.1, lookup-erase_ne e.0 k d)
