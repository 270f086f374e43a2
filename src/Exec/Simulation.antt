-- ===== src/Exec/Simulation.antt =====
-- Two actions of which one does what the other does, and returns more.
use subnet_llm_template.Prelude.{◌≡◌, refl, ap, ◌∙◌, Bool, true, false, if◌then◌else◌}
use subnet_llm_template.Exec.{
  Result, ok, raised, Exec, pure, raise, ◌>>=◌, continue_with, try_or, caught,
}

abbrev pub map_result : {A B : Type 0} → (A → B) → Result A → Result B
map_result f (ok a) = ok (f a)
map_result f raised = raised

-- `m` ends as `n` does, with a value of which `f` gives that of `n`.
pub record Simulates {S A B : Type 0} (f : A → B) (m : Exec S A) (n : Exec S B) : Type 0 where
  pub at : (s : S) → n s ≡ (map_result f (m s).0, (m s).1)

module _ {S A B : Type 0} (f : A → B) where
  pub Simulates-pure : (a : A) → Simulates {S = S} f (pure a) (pure (f a))
  Simulates-pure a = record { at = λ s. refl }

  pub Simulates-raise : Simulates {S = S} f raise raise
  Simulates-raise = record { at = λ s. refl }

  pub Simulates-if :
      (b : Bool) (m m' : Exec S A) (n n' : Exec S B)
      → Simulates f m n
      → Simulates f m' n'
      → Simulates f (if b then m else m') (if b then n else n')
  Simulates-if true m m' n n' h k = h
  Simulates-if false m m' n n' h k = k

  caught-same :
      (r : Result A) (t : S) (h : Exec S A) (h' : Exec S B)
      → Simulates f h h'
      → caught (map_result f r) h' t ≡ (map_result f (caught r h t).0, (caught r h t).1)
  caught-same (ok a) t h h' k = refl
  caught-same raised t h h' k = k.at t

  pub Simulates-try_or :
      (m h : Exec S A) (n h' : Exec S B)
      → Simulates f m n
      → Simulates f h h'
      → Simulates f (try_or m h) (try_or n h')
  Simulates-try_or m h n h' k l = record {
    at = λ s. ap (λ q. caught q.0 h' q.1) (k.at s) ∙ caught-same (m s).0 (m s).1 h h' l;
  }

module _ {S A B C D : Type 0} (f : A → B) (g : C → D) where
  continue-same :
      (r : Result A) (t : S) (k : A → Exec S C) (l : B → Exec S D)
      → ((a : A) → Simulates g (k a) (l (f a)))
      → continue_with (map_result f r) l t
        ≡ (map_result g (continue_with r k t).0, (continue_with r k t).1)
  continue-same (ok a) t k l h = (h a).at t
  continue-same raised t k l h = refl

  pub Simulates-bind :
      (m : Exec S A) (n : Exec S B) (k : A → Exec S C) (l : B → Exec S D)
      → Simulates f m n
      → ((a : A) → Simulates g (k a) (l (f a)))
      → Simulates g (m >>= k) (n >>= l)
  Simulates-bind m n k l h j = record {
    at = λ s. ap (λ q. continue_with q.0 l q.1) (h.at s) ∙ continue-same (m s).0 (m s).1 k l j;
  }

module _ {S A C D : Type 0} (g : C → D) where
  after-same :
      (r : Result A) (t : S) (k : A → Exec S C) (l : A → Exec S D)
      → ((a : A) → Simulates g (k a) (l a))
      → continue_with r l t ≡ (map_result g (continue_with r k t).0, (continue_with r k t).1)
  after-same (ok a) t k l h = (h a).at t
  after-same raised t k l h = refl

  -- The same start on both sides.
  pub Simulates-after :
      (m : Exec S A) (k : A → Exec S C) (l : A → Exec S D)
      → ((a : A) → Simulates g (k a) (l a))
      → Simulates g (m >>= k) (m >>= l)
  Simulates-after m k l h = record { at = λ s. after-same (m s).0 (m s).1 k l h }
