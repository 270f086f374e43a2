-- ===== src/Exec/Inversion.antt =====
-- What an action that has returned says of its parts.
use subnet_llm_template.Prelude.{◌≡◌, refl, ◌⊎◌, inl, inr, Bool, true, false, if◌then◌else◌}
use subnet_llm_template.Exec.{
  Result, ok, raised, Exec, pure, raise, ◌>>=◌, continue_with, caught, try_or,
}

module _ {S A B : Type 0} where
  continue-ok :
      (r : Result A) (f : A → Exec S B) (t : S) {b : B}
      → (continue_with r f t).0 ≡ ok b
      → (a : A) × (r ≡ ok a) × (continue_with r f t ≡ f a t)
  continue-ok (ok a) f t h = (a, refl, refl)
  continue-ok raised f t h = cc

  -- The first part has returned too, and the second goes on from there.
  pub bind-ok :
      (m : Exec S A) (f : A → Exec S B) (s : S) {b : B}
      → ((m >>= f) s).0 ≡ ok b
      → (a : A) × ((m s).0 ≡ ok a) × ((m >>= f) s ≡ f a (m s).1)
  bind-ok m f s h = let (r, t) = m s in continue-ok r f t h

module _ {S B : Type 0} where
  -- `assert` has found its condition true.
  pub assert-ok :
      (c : Bool) (f : Unit {0} → Exec S B) (s : S) {b : B}
      → (((if c then pure tt else raise) >>= f) s).0 ≡ ok b
      → (c ≡ true) × (((if c then pure tt else raise) >>= f) s ≡ f tt s)
  assert-ok true f s h = (refl, refl)
  assert-ok false f s h = cc

module _ {S A : Type 0} where
  caught-ok :
      (r : Result A) (h : Exec S A) (t : S) {a : A}
      → (caught r h t).0 ≡ ok a
      → (r ≡ ok a) ⊎ ((h t).0 ≡ ok a)
  caught-ok (ok b) h t e = inl e
  caught-ok raised h t e = inr e

  -- Either the action has returned, or its handler has.
  pub try_or-ok :
      (m h : Exec S A) (s : S) {a : A}
      → (try_or m h s).0 ≡ ok a
      → ((m s).0 ≡ ok a) ⊎ ((h (m s).1).0 ≡ ok a)
  try_or-ok m h s e = let (r, t) = m s in caught-ok r h t e

pub ok-same : {A : Type 0} {a b : A} → ok a ≡ ok b → a ≡ b
ok-same h = cc

pub Result-cases : {A : Type 0} (r : Result A) → (r ≡ raised) ⊎ ((a : A) × (r ≡ ok a))
Result-cases (ok a) = inr (a, refl)
Result-cases raised = inl refl
