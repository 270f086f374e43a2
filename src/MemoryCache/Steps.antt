-- ===== src/MemoryCache/Steps.antt =====
-- `MemoryCache.allocate_cache` by many connection handlers at once, beside the runtime's
-- `use_cache`: each step is what one process does between two points where others may run.
use subnet_llm_template.Prelude.{
  ℕ, ◌+◌, ◌<◌, ◌≡◌, ◌⊎◌, Bool, true, false, Option, none, some, List, [], ◌∷◌, ◌++◌, length,
}
use subnet_llm_template.MemoryCache.{
  TensorDescriptor, Cache, init, get_allocation_size, enqueue, dequeue, out_of_memory_at_once,
  is_full, commit, free, use_cache, handles_from,
}

-- A call of `allocate_cache`: its size, its descriptors, and whether its timeout is 0.
pub record Request : Type 0 where
  pub alloc_size : ℕ
  pub descriptors : List TensorDescriptor
  pub immediate : Bool

-- A call that has been given its handles, from `first` on.
pub record Lease : Type 0 where
  pub first : ℕ
  pub request : Request

-- The shared memory, and where each call stands: before the lock, inside it, past it with its size
-- still enqueued, past that, and in the body of the `with` statement of its caller.
pub record World : Type 0 where
  pub cache : Cache
  pub queued : List Request
  pub lock : Option Request
  pub granted : List Request
  pub settled : List Request
  pub held : List Lease

abbrev pub handles : Lease → List ℕ
handles l = handles_from l.first (length l.request.descriptors)

abbrev pub start : Option ℕ → World
start max_size_bytes = record {
  cache = init max_size_bytes;
  queued = [];
  lock = none;
  granted = [];
  settled = [];
  held = [];
}

-- The counter of handles is taken to stay below 2 ** 63.
abbrev pub handle_limit : ℕ
handle_limit = 9223372036854775808

pub data Step (s : World) : World → Type 0 where
  arrive :
      (r : Request)
      → get_allocation_size r.descriptors ≡ some r.alloc_size
      → Step s (record s { cache = enqueue r.alloc_size s.cache; queued = r ∷ s.queued })
  refuse_at_once :
      (xs ys : List Request) (r : Request)
      → s.queued ≡ xs ++ r ∷ ys
      → r.immediate ≡ true
      → out_of_memory_at_once s.cache ≡ true
      → Step s (record s { cache = dequeue r.alloc_size s.cache; queued = xs ++ ys })
  expire_in_queue :
      (xs ys : List Request) (r : Request)
      → s.queued ≡ xs ++ r ∷ ys
      → r.immediate ≡ false
      → Step s (record s { cache = dequeue r.alloc_size s.cache; queued = xs ++ ys })
  take_lock :
      (xs ys : List Request) (r : Request)
      → s.queued ≡ xs ++ r ∷ ys
      → s.lock ≡ none
      → (r.immediate ≡ false) ⊎ (out_of_memory_at_once s.cache ≡ false)
      → Step s (record s { lock = some r; queued = xs ++ ys })
  refuse_full :
      (r : Request)
      → s.lock ≡ some r
      → is_full r.alloc_size s.cache ≡ true
      → (r.immediate ≡ true) ⊎ (s.cache.max_size_bytes < r.alloc_size)
      → Step s (record s { cache = dequeue r.alloc_size s.cache; lock = none })
  expire_in_lock :
      (r : Request)
      → s.lock ≡ some r
      → r.immediate ≡ false
      → Step s (record s { cache = dequeue r.alloc_size s.cache; lock = none })
  wake :
      (r : Request)
      → s.lock ≡ some r
      → s.cache.memory_freed_event ≡ true
      → Step s (record s { cache = record s.cache { memory_freed_event = false } })
  grant :
      (r : Request)
      → s.lock ≡ some r
      → is_full r.alloc_size s.cache ≡ false
      → Step s (record s { lock = none; granted = r ∷ s.granted })
  settle :
      (xs ys : List Request) (r : Request)
      → s.granted ≡ xs ++ r ∷ ys
      → Step s (record s {
        cache = dequeue r.alloc_size s.cache;
        granted = xs ++ ys;
        settled = r ∷ s.settled;
      })
  schedule :
      (xs ys : List Request) (r : Request)
      → s.settled ≡ xs ++ r ∷ ys
      → s.cache.handle_counter + length r.descriptors < handle_limit
      → Step s (record s {
        cache = (commit r.alloc_size r.descriptors s.cache).1;
        settled = xs ++ ys;
        held = record { first = s.cache.handle_counter; request = r } ∷ s.held;
      })
  release :
      (xs ys : List Lease) (l : Lease)
      → s.held ≡ xs ++ l ∷ ys
      → Step s (record s { cache = free l.request.alloc_size (handles l) s.cache; held = xs ++ ys })
  use_tensors : (hs : List ℕ) → Step s (record s { cache = (use_cache hs s.cache).1 })

pub data Reach (s : World) : World → Type 0 where
  here : Reach s s
  next : {t u : World} → Reach s t → Step t u → Reach s u
