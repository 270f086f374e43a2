-- ===== src/MemoryCache/Race.antt =====
-- Two calls that are let through before either has added its size: `_wait_for_free_memory` gives
-- `_lock_acquire_memory` back before `_schedule_alloc` adds to `current_size_bytes`.
use subnet_llm_template.Prelude.{
  ℕ, ◌+◌, ◌≤◌, ◌<◌, ◌≡◌, refl, inl, false, none, some, List, [], ◌∷◌, arith, length,
}
use subnet_llm_template.Prelude.Words.{i64_max}
use subnet_llm_template.MemoryCache.{
  Cache, get_allocation_size, is_full, init, enqueue, dequeue, commit,
}
use subnet_llm_template.MemoryCache.Steps.{
  Request, Lease, World, start, Reach, arrive, take_lock, grant, settle, schedule, here, next,
  handle_limit,
}
use subnet_llm_template.MemoryCache.Accounting.{total_held}
use subnet_llm_template.MemoryCache.Leases.{length-handles_from}
use subnet_llm_template.MemoryCache.Budget.{is_full_iff}

-- No call waits, and nothing is held.
abbrev world : Cache → List Request → World
world c granted = record {
  cache = c;
  queued = [];
  lock = none;
  granted = granted;
  settled = [];
  held = [];
}

-- A patient call for which there is room goes through the lock.
Reach-passed :
    {w : World} (r : Request) (c : Cache) (granted : List Request)
    → get_allocation_size r.descriptors ≡ some r.alloc_size
    → r.immediate ≡ false
    → is_full r.alloc_size (enqueue r.alloc_size c) ≡ false
    → Reach w (world c granted)
    → Reach w (world (enqueue r.alloc_size c) (r ∷ granted))
Reach-passed r c granted size patient room w =
    next (next (next w (arrive r size)) (take_lock [] [] r refl refl (inl patient)))
      (grant r refl room)

abbrev lease : ℕ → Request → Lease
lease first r = record { first = first; request = r }

-- For any limit below 2 ** 63 and any two patient calls that fit it one by one but not together,
-- some interleaving gives memory to both: the leases that are held exceed the limit.
pub exceeds_limit :
    (limit : ℕ) (a b : Request)
    → limit ≤ i64_max
    → get_allocation_size a.descriptors ≡ some a.alloc_size
    → get_allocation_size b.descriptors ≡ some b.alloc_size
    → a.immediate ≡ false
    → b.immediate ≡ false
    → a.alloc_size ≤ limit
    → b.alloc_size ≤ limit
    → limit < a.alloc_size + b.alloc_size
    → length a.descriptors + length b.descriptors < handle_limit
    → (s : World) × Reach (start (some limit)) s × (limit < total_held s.held)
unfolding total_held enqueue dequeue commit
exceeds_limit limit a b small sa sb pa pb fa fb over few = (
  _,
  next
      (next (next (next both (settle [] (a ∷ []) b refl)) (settle [] [] a refl))
        (schedule [] (b ∷ []) a refl (omega arith)))
      (schedule [] [] b refl (omega (arith, length-handles_from 0 (length a.descriptors)))),
  omega arith,
)
  where
    one_enqueued : Cache
    one_enqueued = enqueue a.alloc_size (init (some limit))

    both_enqueued : Cache
    both_enqueued = enqueue b.alloc_size one_enqueued

    both : Reach (start (some limit)) (world both_enqueued (b ∷ a ∷ []))
    both =
        Reach-passed b one_enqueued (a ∷ []) sb pb
          ((is_full_iff b.alloc_size 0 _ refl (omega arith)).1 (omega arith))
          (Reach-passed a (init (some limit)) [] sa pa
            ((is_full_iff a.alloc_size 0 _ refl (omega arith)).1 (omega arith)) here)
