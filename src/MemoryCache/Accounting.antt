-- ===== src/MemoryCache/Accounting.antt =====
-- The two counters of the cache over every interleaving.
use subnet_llm_template.Prelude.{
  ℕ, ◌+◌, ◌%◌, ◌≡◌, refl, Option, none, some, List, [], ◌∷◌, ◌++◌, arith,
}
use subnet_llm_template.Prelude.Words.{i64_mod}
use subnet_llm_template.MemoryCache.{enqueue, dequeue, commit, free, use_cache}
use subnet_llm_template.MemoryCache.Steps.{
  Request, Lease, World, start, Step, Reach, arrive, refuse_at_once, expire_in_queue, take_lock,
  refuse_full, expire_in_lock, wake, grant, settle, schedule, release, use_tensors, here, next,
}

unfoldable pub total : List Request → ℕ
total [] = 0
total (r ∷ rs) = r.alloc_size + total rs

unfoldable pub total_held : List Lease → ℕ
total_held [] = 0
total_held (l ∷ ls) = l.request.alloc_size + total_held ls

abbrev pub in_lock : Option Request → ℕ
in_lock none = 0
in_lock (some r) = r.alloc_size

pub total-append : (xs ys : List Request) → total (xs ++ ys) ≡ total xs + total ys
unfolding total
total-append [] ys = omega arith
total-append (x ∷ xs) ys = omega (arith, total-append xs ys)

pub total_held-append : (xs ys : List Lease) → total_held (xs ++ ys) ≡ total_held xs + total_held ys
unfolding total_held
total_held-append [] ys = omega arith
total_held-append (x ∷ xs) ys = omega (arith, total_held-append xs ys)

pub total-split :
    (xs ys : List Request) (r : Request) → total (xs ++ r ∷ ys) ≡ r.alloc_size + total (xs ++ ys)
unfolding total
total-split xs ys r = omega (arith, total-append xs (r ∷ ys), total-append xs ys)

pub total_held-split :
    (xs ys : List Lease) (l : Lease)
    → total_held (xs ++ l ∷ ys) ≡ l.request.alloc_size + total_held (xs ++ ys)
unfolding total_held
total_held-split xs ys l = omega (arith, total_held-append xs (l ∷ ys), total_held-append xs ys)

-- `current_size` is the size of what is held, and `enqueued_size` that of the calls that wait or
-- have just been let through, each as a pattern of 64 bits.
pub record IsAccounted (s : World) : Type 0 where
  pub current : s.cache.current_size ≡ total_held s.held % i64_mod
  pub enqueued :
      s.cache.enqueued_size ≡ (total s.queued + in_lock s.lock + total s.granted) % i64_mod

pub Step-IsAccounted : {s t : World} → Step s t → IsAccounted s → IsAccounted t
unfolding total total_held enqueue dequeue commit free use_cache
Step-IsAccounted (arrive r e) h = ground arith
Step-IsAccounted (refuse_at_once xs ys r e i o) h = ground (arith, total-split xs ys r)
Step-IsAccounted (expire_in_queue xs ys r e i) h = ground (arith, total-split xs ys r)
Step-IsAccounted (take_lock xs ys r e n o) h = ground (arith, total-split xs ys r)
Step-IsAccounted (refuse_full r e f o) h = ground arith
Step-IsAccounted (expire_in_lock r e i) h = ground arith
Step-IsAccounted (wake r e f) h = ground arith
Step-IsAccounted (grant r e f) h = ground arith
Step-IsAccounted (settle xs ys r e) h = ground (arith, total-split xs ys r)
Step-IsAccounted (schedule xs ys r e n) h = ground arith
Step-IsAccounted (release xs ys l e) h = ground (arith, total_held-split xs ys l)
Step-IsAccounted (use_tensors hs) h = record { current = h.current; enqueued = h.enqueued }

Reach-IsAccounted : {s t : World} → IsAccounted s → Reach s t → IsAccounted t
Reach-IsAccounted h here = h
Reach-IsAccounted h (next r st) = Step-IsAccounted st (Reach-IsAccounted h r)

-- In every interleaving of allocations, refusals, timeouts, releases and uses, the size in use is
-- that of the leases that are held, and the enqueued size is that of the calls that wait for
-- memory or have just been let through (both modulo 2 ** 64).
pub Reach-start-IsAccounted :
    (max_size_bytes : Option ℕ) {s : World} → Reach (start max_size_bytes) s → IsAccounted s
Reach-start-IsAccounted m r = Reach-IsAccounted zeros r
  where
    zeros : IsAccounted (start m)
    zeros = unfold total total_held in record { current = refl; enqueued = refl }
