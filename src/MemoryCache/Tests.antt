-- ===== src/MemoryCache/Tests.antt =====
-- Sizes and a small schedule, and the theorems at concrete inputs.
use subnet_llm_template.Prelude.{
  ℕ, ◌*◌, ◌≤◌, ◌<◌, ◌≡◌, refl, inl, false, none, some, [], ◌∷◌, arith,
}
use subnet_llm_template.Prelude.Int.{◌+ℤ◌}
use subnet_llm_template.MemoryCache.{
  TensorDescriptor, init, get_allocation_size, is_full, use_cache, enqueue, dequeue, commit,
}
use subnet_llm_template.MemoryCache.Steps.{
  Request, World, start, Reach, here, next, arrive, take_lock, grant, settle, schedule,
}
use subnet_llm_template.MemoryCache.Accounting.{IsAccounted, Reach-start-IsAccounted, total_held}
use subnet_llm_template.MemoryCache.Leases.{use_cache_finds_lease}
use subnet_llm_template.MemoryCache.Budget.{SerialReach, at_start, then_step, serial_within_limit}
use subnet_llm_template.MemoryCache.Race.{exceeds_limit}

abbrev tensor : ℕ → ℕ → TensorDescriptor
tensor device numel = record { device = device; numel = numel; dtype_bytes = 2 }

abbrev request : ℕ → Request
request numel = record {
  alloc_size = numel * 2;
  descriptors = tensor 0 numel ∷ tensor 1 5 ∷ [];
  immediate = false;
}

size-two_devices : get_allocation_size (tensor 0 30 ∷ tensor 1 5 ∷ tensor 0 1 ∷ []) ≡ some 62
unfolding get_allocation_size
size-two_devices = refl

-- One call goes all the way to its lease.
abbrev leased : World
leased = record {
  cache = (commit 60 (request 30).descriptors (dequeue 60 (enqueue 60 (init (some 100))))).1;
  queued = [];
  lock = none;
  granted = [];
  settled = [];
  held = record { first = 0; request = request 30 } ∷ [];
}

Reach-leased : Reach (start (some 100)) leased
unfolding get_allocation_size is_full enqueue dequeue commit ◌+ℤ◌
Reach-leased =
    next
      (next
        (next
          (next (next here (arrive (request 30) refl))
            (take_lock [] [] (request 30) refl refl (inl refl)))
          (grant (request 30) refl refl))
        (settle [] [] (request 30) refl))
      (schedule [] [] (request 30) refl (omega arith))

SerialReach-leased : SerialReach (start (some 100)) leased
unfolding get_allocation_size is_full enqueue dequeue commit ◌+ℤ◌
SerialReach-leased =
    then_step
      (then_step
        (then_step
          (then_step (then_step at_start (arrive (request 30) refl) tt)
            (take_lock [] [] (request 30) refl refl (inl refl)) tt)
          (grant (request 30) refl refl) (refl, refl))
        (settle [] [] (request 30) refl) tt)
      (schedule [] [] (request 30) refl (omega arith)) tt

Reach-start-IsAccounted_example : IsAccounted leased
Reach-start-IsAccounted_example = Reach-start-IsAccounted (some 100) Reach-leased

use_cache_finds_lease_example :
    ((use_cache (0 ∷ 1 ∷ []) leased.cache).0 ≡ some (tensor 0 30 ∷ tensor 1 5 ∷ [])) × Unit {0}
use_cache_finds_lease_example =
    use_cache_finds_lease (some 100) [] [] (record { first = 0; request = request 30 }) Reach-leased
      refl

serial_within_limit_example : total_held leased.held ≤ 100
serial_within_limit_example = serial_within_limit 100 (omega arith) SerialReach-leased

exceeds_limit_example : (s : World) × Reach (start (some 100)) s × (100 < total_held s.held)
unfolding get_allocation_size
exceeds_limit_example =
    exceeds_limit 100 (request 30) (request 40) (omega arith) refl refl refl refl (omega arith)
      (omega arith) (omega arith) (omega arith)
