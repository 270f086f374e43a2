-- ===== src/Client/Routing/Table.antt =====
-- The routing table of src/subnet/client/routing: the spans of each block, and the servers that
-- `_update` keeps.
use subnet_llm_template.Prelude.{
  ℕ, zero, suc, ◌+◌, ◌<◌, ◌≡◌, ◌≢◌, ◌↔◌, refl, sym, ap, ◌∙◌, Bool, true, false, ◌&&◌, not, Option,
  none, some, List, [], ◌∷◌, ◌++◌, length, get_elem?, arith, ◌==◌, ==_iff, if◌then◌else◌,
  Bool-cases, inl, inr,
}
use subnet_llm_template.Prelude.Dict.{Dict, lookup}
use subnet_llm_template.Swarm.Data.{ServerInfo, online, RemoteModuleInfo, RemoteSpanInfo}
use subnet_llm_template.Client.Routing.{
  keep, or_else, usable, is_allowed, is_blocked, holds, append_span, append_spans, sort_spans,
  no_spans, values, longest_first,
}
use subnet_llm_template.Client.Routing.Order.{
  IsLongestFirst, longest_first-IsLongestFirst, longest_first-Perm,
}
use subnet_llm_template.Swarm.Spans.{compute_spans}
use mathlib.Core.List.{Perm}

lookup-keep :
    (test : ℕ → Bool) (k : ℕ) (d : Dict ServerInfo)
    → lookup k (keep test d) ≡ (if test k then lookup k d else none)
unfolding keep
lookup-keep test k [] = elim (Bool-cases (test k)) [ inl t ↦ rw t refl | inr f ↦ rw f refl ]
lookup-keep test k ((j, v) ∷ d) = elim (Bool-cases (k == j)) [
  | inl same ↦
      let e : k ≡ j = (==_iff k j).0 same in
      elim (Bool-cases (test j)) [
        | inl t ↦ rw (e, t) (simp (ap (λ n. n == j) (sym e) ∙ same) refl)
        | inr f ↦ rw (e, f) (lookup-keep test j d ∙ rw f refl)
      ]
  | inr other ↦ elim (Bool-cases (test j)) [
    | inl t ↦ rw (t, other) (lookup-keep test k d)
    | inr f ↦ rw (f, other) (lookup-keep test k d)
  ]
]

none≢some : {info : ServerInfo} → none ≢ some info
none≢some h = cc

module _ (allowed_servers blocked_servers : Option (List ℕ)) (banned : ℕ → Bool) where
  abbrev pub is_listed : ℕ → Bool
  is_listed k = is_allowed allowed_servers k && not (is_blocked blocked_servers k)

  or_else_sound :
      (valid listed : Dict ServerInfo) (p : ℕ) {info : ServerInfo}
      → (lookup p valid ≡ (if not (banned p) then lookup p listed else none))
      → lookup p (or_else valid listed) ≡ some info
      → lookup p listed ≡ some info
  or_else_sound [] listed p e h = h
  or_else_sound (v ∷ valid) listed p e h = elim (Bool-cases (banned p)) [
    | inl bad ↦ let none_left = rw bad at e in cc
    | inr good ↦ let same = rw good at e in cc
  ]

  or_else_ignores :
      (valid listed : Dict ServerInfo) (p : ℕ) {info : ServerInfo}
      → ((q : ℕ) → lookup q valid ≡ (if not (banned q) then lookup q listed else none))
      → lookup p (or_else valid listed) ≡ some info
      → banned p ≡ true
      → (q : ℕ) {other : ServerInfo} → lookup q listed ≡ some other
      → banned q ≡ true
  or_else_ignores [] listed p e h bad q found = elim (Bool-cases (banned q)) [
    | inl yes_banned ↦ yes_banned
    | inr good ↦ let same = rw good at (e q) in cc
  ]
  or_else_ignores (v ∷ valid) listed p e h bad q found = let none_left = rw bad at (e p) in cc

  or_else_complete :
      (valid listed : Dict ServerInfo) (p : ℕ) {info : ServerInfo}
      → (lookup p valid ≡ (if not (banned p) then lookup p listed else none))
      → banned p ≡ false
      → lookup p listed ≡ some info
      → lookup p (or_else valid listed) ≡ some info
  or_else_complete [] listed p e good h = h
  or_else_complete (v ∷ valid) listed p e good h = let same = rw good at e in cc

  listed_entry :
      (servers : Dict ServerInfo) (p : ℕ) {info : ServerInfo}
      → lookup p (keep is_listed servers) ≡ some info
      → (is_listed p ≡ true) × (lookup p servers ≡ some info)
  listed_entry servers p h = elim (Bool-cases (is_listed p)) [
    | inl ok ↦ (ok, (sym (lookup-keep is_listed p servers ∙ rw ok refl)) ∙ h)
    | inr out ↦
        let nothing = rw out at (lookup-keep is_listed p servers) in
        absurd (none≢some (sym nothing ∙ h))
  ]

  entry :
      (servers : Dict ServerInfo) (q : ℕ)
      → lookup q (keep (λ k. not (banned k)) servers)
        ≡ (if not (banned q) then lookup q servers else none)
  entry servers q = lookup-keep (λ k. not (banned k)) q servers

  -- A server that is not banned is kept for a block exactly when it was there, is allowed and is not
  -- blocked.
  pub usable_iff :
      (servers : Dict ServerInfo) (p : ℕ) (info : ServerInfo)
      → banned p ≡ false
      → (lookup p (usable allowed_servers blocked_servers banned servers) ≡ some info)
        ↔ ((is_listed p ≡ true) × (lookup p servers ≡ some info))
  unfolding usable
  usable_iff servers p info free =
      let listed = keep is_listed servers in
      let valid = keep (λ k. not (banned k)) listed in
      (
        λ h. listed_entry servers p (or_else_sound valid listed p (entry listed p) h),
        λ h.
            or_else_complete valid listed p (entry listed p) free
              (lookup-keep is_listed p servers ∙ rw h.0 h.1),
      )

  -- A banned server is kept only where every server that is there, allowed and not blocked is banned.
  pub banned_if_all :
      (servers : Dict ServerInfo) (p q : ℕ) {info other : ServerInfo}
      → lookup p (usable allowed_servers blocked_servers banned servers) ≡ some info
      → banned p ≡ true
      → lookup q servers ≡ some other
      → is_listed q ≡ true
      → banned q ≡ true
  unfolding usable
  banned_if_all servers p q {other = other} h bad there good =
      let listed = keep is_listed servers in
      or_else_ignores (keep (λ k. not (banned k)) listed) listed p (entry listed) h bad q
        {other = other} (lookup-keep is_listed q servers ∙ rw good there)

-- The spans of a list that hold a block, in their order.
unfoldable pub spans_at : ℕ → List RemoteSpanInfo → List RemoteSpanInfo
spans_at block [] = []
spans_at block (s ∷ spans) =
    if holds block s then s ∷ spans_at block spans else spans_at block spans

get_elem?-append_span :
    (i : ℕ) (span : RemoteSpanInfo) (containing : List (List RemoteSpanInfo)) (j : ℕ)
    {spans : List RemoteSpanInfo}
    → get_elem? containing j ≡ some spans
    → get_elem? (append_span i span containing) j
      ≡ some (if holds (i + j) span then spans ++ span ∷ [] else spans)
unfolding append_span
get_elem?-append_span i span [] j h = cc
get_elem?-append_span i span (x ∷ rest) zero {spans} h =
    let same : x ≡ spans = cc in let here : i + 0 ≡ i = omega arith in rw (here, same) refl
get_elem?-append_span i span (x ∷ rest) (suc j) h =
    let next : i + suc j ≡ i + 1 + j = omega arith in
    rw next (get_elem?-append_span (i + 1) span rest j h)

append_one :
    (xs : List RemoteSpanInfo) (s : RemoteSpanInfo) (ys : List RemoteSpanInfo)
    → (xs ++ s ∷ []) ++ ys ≡ xs ++ s ∷ ys
append_one [] s ys = refl
append_one (x ∷ xs) s ys = ap (λ l. x ∷ l) (append_one xs s ys)

append_nil : (xs : List RemoteSpanInfo) → xs ++ [] ≡ xs
append_nil [] = refl
append_nil (x ∷ xs) = ap (λ l. x ∷ l) (append_nil xs)

get_elem?-append_spans :
    (new : List RemoteSpanInfo) (containing : List (List RemoteSpanInfo)) (j : ℕ)
    {spans : List RemoteSpanInfo}
    → get_elem? containing j ≡ some spans
    → get_elem? (append_spans new containing) j ≡ some (spans ++ spans_at j new)
unfolding append_spans spans_at
get_elem?-append_spans [] containing j {spans} h = h ∙ ap some (sym (append_nil spans))
get_elem?-append_spans (s ∷ new) containing j {spans} h =
    let start : 0 + j ≡ j = omega arith in
    let here = rw start at (get_elem?-append_span 0 s containing j h) in
    elim (Bool-cases (holds j s)) [
      | inl inside ↦
          let here' = rw inside at here in
          rw inside (
            get_elem?-append_spans new (append_span 0 s containing) j here'
            ∙ ap some (append_one spans s (spans_at j new)))
      | inr outside ↦
          let here' = rw outside at here in
          rw outside (get_elem?-append_spans new (append_span 0 s containing) j here')
    ]

get_elem?-no_spans :
    (infos : List RemoteModuleInfo) (j : ℕ)
    → j < length infos
    → get_elem? (no_spans infos) j ≡ some []
get_elem?-no_spans [] j h = absurd (omega (arith, h))
get_elem?-no_spans (m ∷ infos) zero h = refl
get_elem?-no_spans (m ∷ infos) (suc j) h = get_elem?-no_spans infos j (omega (arith, h))

-- The list by priority has exactly the spans of the modules, none of them longer than the one before
-- it, and for each block the table lists exactly those of its spans that hold the block, in the same
-- order.
pub sort_spans_lem :
    (infos : List RemoteModuleInfo) (block : ℕ)
    → block < length infos
    → Perm (sort_spans infos).0 (values (compute_spans infos online))
      × IsLongestFirst (sort_spans infos).0
      × (get_elem? (sort_spans infos).1 block ≡ some (spans_at block (sort_spans infos).0))
unfolding sort_spans
sort_spans_lem infos block h =
    let spans = values (compute_spans infos online) in
    (
      longest_first-Perm spans,
      longest_first-IsLongestFirst spans,
      get_elem?-append_spans (longest_first spans) (no_spans infos) block
          (get_elem?-no_spans infos block h),
    )
