-- ===== src/Client/Routing/Sequence.antt =====
-- The sequence of spans that `_make_sequence_with_max_throughput` makes.
use subnet_llm_template.Prelude.{
  ℕ, zero, suc, ◌+◌, ◌-◌, ◌≤◌, ◌<◌, ◌≡◌, refl, true, false, ◌&&◌, Option, some, List, [], ◌∷◌,
  length, get_elem?, arith, ltb, leb, Bool-cases, inl, inr,
}
use subnet_llm_template.Prelude.Int.{pos, negsuc, pos_part, ltb_ℤ}
use subnet_llm_template.Swarm.Data.{RemoteModuleInfo, RemoteSpanInfo}
use subnet_llm_template.Client.Routing.{
  holds, sort_spans, nth, route_on, choose_span, make_sequence_with_max_throughput,
}
use subnet_llm_template.Client.Routing.Table.{spans_at, sort_spans_lem}

-- Each span starts at the block at which the one before it ends, and the last one reaches `end`.
abbrev pub IsRoute : ℕ → ℕ → List RemoteSpanInfo → Type 0
IsRoute current end [] = end ≤ current
IsRoute current end (s ∷ route) =
    (s.start ≡ current) × (holds current s ≡ true) × IsRoute (pos_part s.end) end route

abbrev pub Found : ℕ → ℕ → Option (List RemoteSpanInfo) → Type 0
Found current end o = (route : List RemoteSpanInfo) × (o ≡ some route) × IsRoute current end route

holds_end : (block : ℕ) (s : RemoteSpanInfo) → holds block s ≡ true → block < pos_part s.end
holds_end block s h =
    elim s.end as (λ e. (leb s.start block && ltb_ℤ (pos block) e) ≡ true → block < pos_part e) [
      | pos n ↦ λ k. ground arith
      | negsuc n ↦ λ k. ground arith
    ]
      h

abbrev AllHold : ℕ → List RemoteSpanInfo → Type 0
AllHold block [] = Unit
AllHold block (s ∷ spans) = (holds block s ≡ true) × AllHold block spans

spans_at-AllHold : (block : ℕ) (all : List RemoteSpanInfo) → AllHold block (spans_at block all)
unfolding spans_at
spans_at-AllHold block [] = tt
spans_at-AllHold block (s ∷ all) = elim (Bool-cases (holds block s)) [
  | inl inside ↦ rw inside (inside, spans_at-AllHold block all)
  | inr outside ↦ rw outside (spans_at-AllHold block all)
]

nth-holds :
    (block n : ℕ) (s : RemoteSpanInfo) (spans : List RemoteSpanInfo)
    → AllHold block (s ∷ spans)
    → holds block (nth n s spans) ≡ true
nth-holds block zero s spans h = h.0
nth-holds block (suc n) s [] h = h.0
nth-holds block (suc n) s (t ∷ spans) h = nth-holds block n t spans h.1

route_on-Found :
    (current end : ℕ) (s : RemoteSpanInfo) (go_on : ℕ → Option (List RemoteSpanInfo))
    → holds current s ≡ true
    → Found (pos_part s.end) end (go_on (pos_part s.end))
    → Found current end (route_on current s go_on)
route_on-Found current end s go_on h (route, found, is_route) =
    rw (h, found) (record s { start = current } ∷ route, refl, (refl, still, is_route))
  where
    still : (leb current current && ltb_ℤ (pos current) s.end) ≡ true
    still = ground arith

choose_span-Found :
    (n current end : ℕ) (o : Option (List RemoteSpanInfo)) (candidates : List RemoteSpanInfo)
    (go_on : ℕ → Option (List RemoteSpanInfo))
    → o ≡ some candidates
    → 0 < length candidates
    → AllHold current candidates
    → ((s : RemoteSpanInfo)
        → holds current s ≡ true
        → Found (pos_part s.end) end (go_on (pos_part s.end)))
    → Found current end (choose_span n current o go_on)
choose_span-Found n current end o [] go_on e some_span h rest = absurd (omega (arith, some_span))
choose_span-Found n current end o (s ∷ spans) go_on e some_span h rest =
    let holding = nth-holds current n s spans h in
    rw e (route_on-Found current end (nth n s spans) go_on holding (rest (nth n s spans) holding))

module _ (draw : ℕ → ℕ) (end : ℕ) (all : List RemoteSpanInfo)
    (containing : List (List RemoteSpanInfo)) where
  make-Found :
      (fuel current : ℕ)
      → end ≤ current + fuel
      → ((block : ℕ) → block < end → get_elem? containing block ≡ some (spans_at block all))
      → ((block : ℕ) → current ≤ block → block < end → 0 < length (spans_at block all))
      → Found current end (make_sequence_with_max_throughput draw fuel current end containing)
  unfolding make_sequence_with_max_throughput
  make-Found zero current enough table held =
      let over : ltb current end ≡ false = ground arith in rw over ([], refl, omega (arith, enough))
  make-Found (suc fuel) current enough table held = elim (Bool-cases (ltb current end)) [
    | inr over ↦ rw over ([], refl, ground arith)
    | inl before ↦
        let below : current < end = ground arith in
        rw before (
          choose_span-Found (draw current) current end (get_elem? containing current)
            (spans_at current all)
            (λ next. make_sequence_with_max_throughput draw fuel next end containing)
            (table current below) (held current (omega arith) below) (spans_at-AllHold current all)
            (λ s holding.
              let on = holds_end current s holding in
              make-Found fuel (pos_part s.end) (omega (arith, on, enough)) table
                (λ block low high. held block (omega (arith, on, low)) high)))
  ]

-- If every block from `start` to `end` has a server, a sequence is found, whichever servers are
-- drawn: its spans follow each other without a gap, each one a span that holds its first block, and
-- reach `end`.
pub max_throughput-IsRoute :
    (infos : List RemoteModuleInfo) (draw : ℕ → ℕ) (start end : ℕ)
    → end ≤ length infos
    → ((block : ℕ) → start ≤ block → block < end → 0 < length (spans_at block (sort_spans infos).0))
    → Found start end
        (make_sequence_with_max_throughput draw (end - start) start end (sort_spans infos).1)
max_throughput-IsRoute infos draw start end within held =
    make-Found draw end (sort_spans infos).0 (sort_spans infos).1 (end - start) start (omega arith)
      (λ block high. (sort_spans_lem infos block (omega (arith, high, within))).2) held
