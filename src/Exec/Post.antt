-- ===== src/Exec/Post.antt =====
-- What holds after an action: `Q` of its result when it returns, `P` when it raises.
use subnet_llm_template.Prelude.{◌≡◌, refl}
use subnet_llm_template.Exec.{Result, ok, raised, Exec, ◌>>=◌, continue_with}

module _ {S A : Type 0} where
  abbrev pub Post : (S → Type 0) → (A → S → Type 0) → Result A × S → Type 0
  Post P Q (ok a, s) = Q a s
  Post P Q (raised, s) = P s

  -- From the two cases of a computed result.
  pub Post-cases :
      (P : S → Type 0) (Q : A → S → Type 0) (p : Result A × S)
      → ((a : A) (t : S) → p ≡ (ok a, t) → Q a t)
      → ((t : S) → p ≡ (raised, t) → P t)
      → Post P Q p
  Post-cases P Q (ok a, t) f g = f a t refl
  Post-cases P Q (raised, t) f g = g t refl

  pub Post-imp :
      (P P' : S → Type 0) (Q Q' : A → S → Type 0) (p : Result A × S)
      → ((t : S) → P t → P' t)
      → ((a : A) (t : S) → Q a t → Q' a t)
      → Post P Q p
      → Post P' Q' p
  Post-imp P P' Q Q' (ok a, t) f g h = g a t h
  Post-imp P P' Q Q' (raised, t) f g h = f t h

module _ {S A B : Type 0} where
  Post-continue :
      (P : S → Type 0) (Q : A → S → Type 0) (R : B → S → Type 0) (r : Result A) (t : S)
      (f : A → Exec S B)
      → Post P Q (r, t)
      → ((a : A) (u : S) → Q a u → Post P R (f a u))
      → Post P R (continue_with r f t)
  Post-continue P Q R (ok a) t f h k = k a t h
  Post-continue P Q R raised t f h k = h

  pub Post-bind :
      (P : S → Type 0) (Q : A → S → Type 0) (R : B → S → Type 0) (m : Exec S A) (f : A → Exec S B)
      (s : S)
      → Post P Q (m s)
      → ((a : A) (u : S) → Q a u → Post P R (f a u))
      → Post P R ((m >>= f) s)
  Post-bind P Q R m f s h k = let (r, t) = m s in Post-continue P Q R r t f h k
