-- ===== src/Client/Routing/Order.antt =====
-- The list by priority of src/subnet/client/routing/sequence_info.py: the spans, the longest first.
use mathlib.Core.List.Perm
use mathlib.Core.List.{Perm}
use subnet_llm_template.Prelude.{◌≡◌, false, List, [], ◌∷◌, arith, Bool-cases, inl, inr}
use subnet_llm_template.Prelude.Int.{◌≤ℤ◌, leb_ℤ, leb_ℤ→le}
use subnet_llm_template.Swarm.Data.{RemoteSpanInfo, length as span_length}
use subnet_llm_template.Client.Routing.{insert_longest, longest_first}

-- No span is longer than the one before it.
abbrev pub IsLongestFirst : List RemoteSpanInfo → Type 0
IsLongestFirst [] = Unit
IsLongestFirst (s ∷ []) = Unit
IsLongestFirst (s ∷ t ∷ ts) = (span_length t ≤ℤ span_length s) × IsLongestFirst (t ∷ ts)

shorter :
    (s t : RemoteSpanInfo)
    → leb_ℤ (span_length t) (span_length s) ≡ false
    → span_length s ≤ℤ span_length t
shorter s t h = ground arith

-- A span that is not longer than the first goes behind it.
insert-behind :
    (s t : RemoteSpanInfo) (ts : List RemoteSpanInfo)
    → span_length s ≤ℤ span_length t
    → IsLongestFirst (t ∷ ts)
    → IsLongestFirst (insert_longest s ts)
    → IsLongestFirst (t ∷ insert_longest s ts)
insert-behind s t [] le h k = (le, k)
insert-behind s t (u ∷ us) le (first, h) k =
    elim (Bool-cases (leb_ℤ (span_length u) (span_length s))) [
      | inl here ↦ rw here (le, rw here at k)
      | inr later ↦ rw later (first, rw later at k)
    ]

insert_longest-IsLongestFirst :
    (s : RemoteSpanInfo) (ts : List RemoteSpanInfo)
    → IsLongestFirst ts
    → IsLongestFirst (insert_longest s ts)
insert_longest-IsLongestFirst s [] h = tt
insert_longest-IsLongestFirst s (t ∷ ts) h =
    elim (Bool-cases (leb_ℤ (span_length t) (span_length s))) [
      | inl here ↦ rw here (leb_ℤ→le (span_length t) (span_length s) here, h)
      | inr later ↦ rw later (
          insert-behind s t ts (shorter s t later) h
            (insert_longest-IsLongestFirst s ts (rest t ts h)))
    ]
  where
    rest :
        (t : RemoteSpanInfo) (ts : List RemoteSpanInfo)
        → IsLongestFirst (t ∷ ts)
        → IsLongestFirst ts
    rest t [] h = tt
    rest t (u ∷ us) h = h.1

pub longest_first-IsLongestFirst :
    (spans : List RemoteSpanInfo) → IsLongestFirst (longest_first spans)
longest_first-IsLongestFirst [] = tt
longest_first-IsLongestFirst (s ∷ spans) =
    insert_longest-IsLongestFirst s (longest_first spans) (longest_first-IsLongestFirst spans)

insert_longest-Perm :
    (s : RemoteSpanInfo) (ts : List RemoteSpanInfo) → Perm (insert_longest s ts) (s ∷ ts)
insert_longest-Perm s [] = Perm.refl (s ∷ [])
insert_longest-Perm s (t ∷ ts) = elim (Bool-cases (leb_ℤ (span_length t) (span_length s))) [
  | inl here ↦ rw here (Perm.refl (s ∷ t ∷ ts))
  | inr later ↦ rw later (Perm.trans (Perm.cons t (insert_longest-Perm s ts)) (Perm.swap s t ts))
]

pub longest_first-Perm : (spans : List RemoteSpanInfo) → Perm (longest_first spans) spans
longest_first-Perm [] = Perm.refl []
longest_first-Perm (s ∷ spans) =
    Perm.trans (insert_longest-Perm s (longest_first spans))
      (Perm.cons s (longest_first-Perm spans))
