-- ===== src/Exec/Keeps.antt =====
-- Relations between the state before and after an action, one rule for each way to build one.
use subnet_llm_template.Prelude.{◌≡◌, refl, ◌∙◌, Bool, true, false, if◌then◌else◌}
use subnet_llm_template.Exec.{
  Result, ok, raised, Exec, pure, raise, ◌>>=◌, try_or, caught, continue_with,
}

-- What an action leaves as it is, of all that `f` reads from the state.
pub record Keeps {S V A : Type 0} (f : S → V) (m : Exec S A) : Type 0 where
  pub at : (s : S) → f (m s).1 ≡ f s

module _ {S V A : Type 0} (f : S → V) where
  pub Keeps-pure : (a : A) → Keeps f (pure a)
  Keeps-pure a = record { at = λ s. refl }

  pub Keeps-raise : Keeps f (raise {A = A})
  Keeps-raise = record { at = λ s. refl }

  pub Keeps-if : (b : Bool) (m n : Exec S A) → Keeps f m → Keeps f n → Keeps f (if b then m else n)
  Keeps-if true m n h k = h
  Keeps-if false m n h k = k

  Keeps-caught :
      (r : Result A) (h : Exec S A) (s t : S) → Keeps f h → f t ≡ f s → f (caught r h t).1 ≡ f s
  Keeps-caught (ok a) h s t k e = e
  Keeps-caught raised h s t k e = k.at t ∙ e

  pub Keeps-try_or : (m h : Exec S A) → Keeps f m → Keeps f h → Keeps f (try_or m h)
  Keeps-try_or m h k l = record { at = λ s. let (r, t) = m s in Keeps-caught r h s t l (k.at s) }

module _ {S V A B : Type 0} (f : S → V) where
  Keeps-continue :
      (r : Result A) (g : A → Exec S B) (s t : S)
      → ((a : A) → Keeps f (g a))
      → f t ≡ f s
      → f (continue_with r g t).1 ≡ f s
  Keeps-continue (ok a) g s t k e = (k a).at t ∙ e
  Keeps-continue raised g s t k e = e

  pub Keeps-bind :
      (m : Exec S A) (g : A → Exec S B) → Keeps f m → ((a : A) → Keeps f (g a)) → Keeps f (m >>= g)
  Keeps-bind m g k l = record { at = λ s. let (r, t) = m s in Keeps-continue r g s t l (k.at s) }
