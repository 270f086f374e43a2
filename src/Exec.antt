-- ===== src/Exec.antt =====
-- Python methods that change an object and may raise: what was written before a raise stays.
pub mod Keeps
pub mod Inversion
pub mod Simulation
pub mod Post
use subnet_llm_template.Prelude.{Bool, true, false, Option, none, some, if◌then◌else◌}

pub data Result (A : Type 0) : Type 0 where
  ok : A → Result A
  raised : Result A

abbrev pub Exec : Type 0 → Type 0 → Type 0
Exec S A = S → Result A × S

module _ {S A : Type 0} where
  abbrev pub pure : A → Exec S A
  pure a s = (ok a, s)

  abbrev pub raise : Exec S A
  raise s = (raised, s)

  abbrev pub gets : (S → A) → Exec S A
  gets f s = (ok (f s), s)

module _ {S A B : Type 0} where
  abbrev pub continue_with : Result A → (A → Exec S B) → Exec S B
  continue_with (ok a) f s = f a s
  continue_with raised f s = (raised, s)

  infixl 5 ◌>>=◌ ◌>>◌
  abbrev pub ◌>>=◌ : Exec S A → (A → Exec S B) → Exec S B
  ◌>>=◌ m f s = let (r, s') = m s in continue_with r f s'

  abbrev pub ◌>>◌ : Exec S A → Exec S B → Exec S B
  m >> n = m >>= λ _. n

module _ {S : Type 0} where
  abbrev pub modify : (S → S) → Exec S (Unit {0})
  modify f s = (ok tt, f s)

module _ {S A : Type 0} where
  -- `try: m` with `except Exception: h`
  abbrev pub caught : Result A → Exec S A → Exec S A
  caught (ok a) h s = (ok a, s)
  caught raised h s = h s

  abbrev pub try_or : Exec S A → Exec S A → Exec S A
  try_or m h s = let (r, s') = m s in caught r h s'
