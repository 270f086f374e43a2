-- ===== src/Swarm/Blocks.antt =====
-- src/subnet/server/block_selection.py: which blocks a server is to serve, and whether it should move.
-- A throughput is a number of a unit that is left open (Swarm.Data), and the arrays of throughputs count
-- thousandths of that unit; sums are exact.
pub mod Throughputs
pub mod Lexicographic
pub mod Best
use subnet_llm_template.Prelude.{
  ℕ, zero, suc, ◌+◌, ◌-◌, ◌*◌, Bool, true, false, ◌&&◌, ◌||◌, not, Option, none, some, List, [],
  ◌∷◌, length, take, drop, replicate, leb, ltb, ◌==◌, if◌then◌else◌,
}
use subnet_llm_template.Prelude.Int.{ℤ, pos, negsuc, ◌+ℤ◌, ◌-ℤ◌, ltb_ℤ, leb_ℤ, min_ℤ}
use subnet_llm_template.Prelude.Dict.{Dict, lookup, insert}
use subnet_llm_template.Swarm.Data.{
  ServerState, joining, RemoteModuleInfo, RemoteSpanInfo, throughput, length as span_length,
}
use subnet_llm_template.Swarm.Spans.{compute_spans}

-- The end of a slice of `total` elements: a negative one counts from the back.
abbrev pub slice_end : ℕ → ℤ → ℕ
slice_end total (pos e) = e
slice_end total (negsuc k) = total - (k + 1)

-- `throughputs[start : end] += v`, from element number `i` on.
unfoldable pub add_range : ℕ → ℕ → ℕ → ℤ → List ℤ → List ℤ
add_range i start end v [] = []
add_range i start end v (x ∷ xs) =
    (if leb start i && ltb i end then x +ℤ v else x) ∷ add_range (i + 1) start end v xs

-- The same for the blocks of a span.
abbrev pub add_span : RemoteSpanInfo → ℤ → List ℤ → List ℤ
add_span span v throughputs =
    add_range 0 span.start (slice_end (length throughputs) span.end) v throughputs

-- `sorted(spans.values(), key=lambda span: span.peer_id)`
abbrev pub insert_span : RemoteSpanInfo → List RemoteSpanInfo → List RemoteSpanInfo
insert_span s [] = s ∷ []
insert_span s (t ∷ ts) = if leb s.peer_id t.peer_id then s ∷ t ∷ ts else t ∷ insert_span s ts

abbrev pub sorted_spans : Dict RemoteSpanInfo → List RemoteSpanInfo
sorted_spans [] = []
sorted_spans ((_, s) ∷ spans) = insert_span s (sorted_spans spans)

unfoldable pub add_spans : List RemoteSpanInfo → List ℤ → List ℤ
unfolding add_range
add_spans [] throughputs = throughputs
add_spans (s ∷ spans) throughputs =
    add_spans spans (add_span s (pos (1000 * throughput s)) throughputs)

unfoldable pub compute_throughputs : Dict RemoteSpanInfo → ℕ → List ℤ
unfolding add_spans
compute_throughputs spans total_blocks =
    add_spans (sorted_spans spans) (replicate total_blocks (pos 0))

-- `sorted` on a window of throughputs.
abbrev pub insert_number : ℤ → List ℤ → List ℤ
insert_number x [] = x ∷ []
insert_number x (y ∷ ys) = if leb_ℤ x y then x ∷ y ∷ ys else y ∷ insert_number x ys

abbrev pub sorted_numbers : List ℤ → List ℤ
sorted_numbers [] = []
sorted_numbers (x ∷ xs) = insert_number x (sorted_numbers xs)

-- Python's order on lists, and on the pairs of a list and a number.
unfoldable pub lex_ltb : List ℤ → List ℤ → Bool
lex_ltb [] [] = false
lex_ltb [] (y ∷ ys) = true
lex_ltb (x ∷ xs) [] = false
lex_ltb (x ∷ xs) (y ∷ ys) = ltb_ℤ x y || (not (ltb_ℤ y x) && lex_ltb xs ys)

abbrev pub pair_ltb : List ℤ × ℕ → List ℤ × ℕ → Bool
pair_ltb (v, j) (w, i) = lex_ltb v w || (not (lex_ltb w v) && ltb j i)

abbrev pub window : List ℤ → ℕ → ℕ → List ℤ
window throughputs num_blocks i = sorted_numbers (take num_blocks (drop i throughputs))

-- The options from number `i` on, `n` of them.
unfoldable pub options : List ℤ → ℕ → ℕ → ℕ → List (List ℤ × ℕ)
options throughputs num_blocks i zero = []
options throughputs num_blocks i (suc n) =
    (window throughputs num_blocks i, i) ∷ options throughputs num_blocks (i + 1) n

-- `min`, with the best option so far.
unfoldable pub best_of : List ℤ × ℕ → List (List ℤ × ℕ) → List ℤ × ℕ
best_of best [] = best
best_of best (o ∷ rest) = best_of (if pair_ltb o best then o else best) rest

abbrev pub min_option : List (List ℤ × ℕ) → Option (List ℤ × ℕ)
min_option [] = none
min_option (o ∷ rest) = some (best_of o rest)

abbrev pub index_of : Option (List ℤ × ℕ) → Option ℕ
index_of none = none
index_of (some (_, i)) = some i

-- `_choose_best_start`; `min` raises on no options.
unfoldable pub choose_best_start : List ℤ → ℕ → Option ℕ
unfolding lex_ltb options best_of
choose_best_start throughputs num_blocks =
    index_of (min_option (options throughputs num_blocks 0 (length throughputs + 1 - num_blocks)))

-- `list(range(start, start + num_blocks))`
abbrev pub blocks_from : ℕ → ℕ → List ℕ
blocks_from start zero = []
blocks_from start (suc n) = start ∷ blocks_from (start + 1) n

abbrev pub blocks_at : Option ℕ → ℕ → Option (List ℕ)
blocks_at none num_blocks = none
blocks_at (some start) num_blocks = some (blocks_from start num_blocks)

unfoldable pub choose_best_blocks : ℕ → List RemoteModuleInfo → Option (List ℕ)
unfolding choose_best_start compute_throughputs compute_spans
choose_best_blocks num_blocks module_infos =
    blocks_at
      (choose_best_start
        (compute_throughputs (compute_spans module_infos joining) (length module_infos)) num_blocks)
      num_blocks
