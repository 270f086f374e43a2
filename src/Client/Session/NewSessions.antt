-- ===== src/Client/Session/NewSessions.antt =====
-- Sessions with servers at position 0, put in the place of others.
use subnet_llm_template.Prelude.{
  ℕ, zero, suc, ◌+◌, ◌<◌, ◌≡◌, refl, Option, none, some, List, [], ◌∷◌, ◌++◌, length, get_elem?,
  drop, arith,
}
use subnet_llm_template.Client.Connection.{ServerSession}
use subnet_llm_template.Client.Session.{inherit, replace}

abbrev pub AllNew : List ServerSession → Type 0
AllNew [] = Unit
AllNew (s ∷ ss) = (s.position ≡ 0) × AllNew ss

drop-nil : (n : ℕ) → drop {A = ServerSession} n [] ≡ []
drop-nil zero = refl
drop-nil (suc n) = refl

get_elem?-AllNew :
    (ss : List ServerSession) (i : ℕ) {s : ServerSession}
    → AllNew ss
    → get_elem? (ss ++ []) i ≡ some s
    → s.position ≡ 0
get_elem?-AllNew [] i h e = cc
get_elem?-AllNew (t ∷ ss) zero h e = cc
get_elem?-AllNew (t ∷ ss) (suc i) h e = get_elem?-AllNew ss i h.1 e

-- Where new sessions are put in, the first of them, or none, is then found.
pub replace-new :
    (i : ℕ) (new xs : List ServerSession) {s : ServerSession}
    → AllNew new
    → 0 < length new
    → get_elem? (replace i new xs) i ≡ some s
    → s.position ≡ 0
replace-new i [] xs h some_new e = absurd (omega (arith, some_new))
replace-new zero (n ∷ new) xs h some_new e = cc
replace-new (suc i) (n ∷ new) [] h some_new e =
    get_elem?-AllNew (n ∷ new) (suc i) h (rw (drop-nil (suc i + 1)) at e)
replace-new (suc i) (n ∷ new) (x ∷ xs) h some_new e =
    let next : suc i + 1 ≡ suc (i + 1) = omega arith in
    replace-new i (n ∷ new) xs h some_new (rw next at e)

pub inherit-AllNew :
    (old : Option ServerSession) (ss : List ServerSession) → AllNew ss → AllNew (inherit old ss)
inherit-AllNew none ss h = h
inherit-AllNew (some o) [] h = h
inherit-AllNew (some o) (s ∷ ss) h = h

pub length-inherit :
    (old : Option ServerSession) (ss : List ServerSession) → length (inherit old ss) ≡ length ss
length-inherit none ss = refl
length-inherit (some o) [] = refl
length-inherit (some o) (s ∷ ss) = refl
