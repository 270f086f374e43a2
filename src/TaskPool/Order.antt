-- ===== src/TaskPool/Order.antt =====
-- The order of `_ordered_tasks`, the `PriorityQueue` of the pool.
use subnet_llm_template.Prelude.{◌≡◌, true, false, List, [], ◌∷◌, arith, Bool-cases, inl, inr}
use subnet_llm_template.TaskPool.{Task, key, before, put}

-- No task of the list goes before `t`.
abbrev pub NoneBefore : Task → List Task → Type 0
NoneBefore t [] = Unit
NoneBefore t (u ∷ ts) = (before (key u) (key t) ≡ false) × NoneBefore t ts

abbrev pub IsOrdered : List Task → Type 0
IsOrdered [] = Unit
IsOrdered (t ∷ ts) = NoneBefore t ts × IsOrdered ts

before_asymm : (t u : Task) → before (key t) (key u) ≡ true → before (key u) (key t) ≡ false
before_asymm t u h = ground arith

before_trans :
    (t u v : Task)
    → before (key t) (key u) ≡ true
    → before (key v) (key u) ≡ false
    → before (key v) (key t) ≡ false
before_trans t u v h k = ground arith

NoneBefore-trans :
    (t u : Task) (ts : List Task)
    → before (key t) (key u) ≡ true
    → NoneBefore u ts
    → NoneBefore t ts
NoneBefore-trans t u [] h k = tt
NoneBefore-trans t u (v ∷ ts) h k = (before_trans t u v h k.0, NoneBefore-trans t u ts h k.1)

NoneBefore-put :
    (u t : Task) (ts : List Task)
    → before (key t) (key u) ≡ false
    → NoneBefore u ts
    → NoneBefore u (put t ts)
unfolding put
NoneBefore-put u t [] h k = (h, tt)
NoneBefore-put u t (v ∷ ts) h k = elim (Bool-cases (before (key t) (key v))) [
  | inl first ↦ rw first (h, k)
  | inr later ↦ rw later (k.0, NoneBefore-put u t ts h k.1)
]

pub put-IsOrdered : (t : Task) (ts : List Task) → IsOrdered ts → IsOrdered (put t ts)
unfolding put
put-IsOrdered t [] h = (tt, tt)
put-IsOrdered t (u ∷ ts) h = elim (Bool-cases (before (key t) (key u))) [
  | inl first ↦ rw first ((before_asymm t u first, NoneBefore-trans t u ts first h.0), h)
  | inr later ↦ rw later (NoneBefore-put u t ts later h.0, put-IsOrdered t ts h.1)
]
