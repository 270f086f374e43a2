-- ===== src/MemoryCache/Leases.antt =====
-- What `use_cache` gives to the leases that are held, over the interleavings of `allocate_cache`.
use subnet_llm_template.Prelude.{
  ℕ, zero, suc, ◌+◌, ◌≤◌, ◌<◌, ◌≡◌, refl, sym, ◌∙◌, inl, inr, Option, some, List, [], ◌∷◌, ◌++◌,
  arith, length,
}
use mathlib.Core.Path.{subst₂}
use native.Mathlib.Nat.{le_refl}
use subnet_llm_template.Prelude.Dict.{Dict}
use subnet_llm_template.Prelude.Words.{add64}
use subnet_llm_template.MemoryCache.{
  TensorDescriptor, Cache, handles_from, create_tensors, delete_tensors, drain, read_tensors,
  commit, free, use_cache, enqueue, dequeue,
}
use subnet_llm_template.MemoryCache.Steps.{
  Request, Lease, handles, World, start, Step, Reach, arrive, refuse_at_once, expire_in_queue,
  take_lock, refuse_full, expire_in_lock, wake, grant, settle, schedule, release, use_tensors, here,
  next, handle_limit,
}
use subnet_llm_template.MemoryCache.Handles.{
  Apart, lookup-create_tensors, lookup-delete_tensors, read_tensors-agree,
  read_tensors-create_tensors, drain-append,
}

abbrev pub count : Lease → ℕ
count l = length l.request.descriptors

abbrev pub IsServed : Dict TensorDescriptor → Lease → Type 0
IsServed ts l = read_tensors (handles l) ts ≡ some l.request.descriptors

abbrev pub AllApart : Lease → List Lease → Type 0
AllApart l [] = Unit
AllApart l (k ∷ ls) = Apart l.first (count l) k.first (count k) × AllApart l ls

-- Every lease lies below the counter, has its tensors, and is apart from the others.
abbrev pub AllServed : ℕ → Dict TensorDescriptor → List Lease → Type 0
AllServed counter ts [] = Unit
AllServed counter ts (l ∷ ls) =
    (l.first + count l ≤ counter) × IsServed ts l × AllApart l ls × AllServed counter ts ls

IsServed-create :
    (c n : ℕ) (ds : List TensorDescriptor) (ts : Dict TensorDescriptor) (l : Lease)
    → l.first + count l ≤ c
    → IsServed ts l
    → IsServed (create_tensors (handles_from c n) ds ts) l
IsServed-create c n ds ts l le h =
    read_tensors-agree l.first (count l) (create_tensors (handles_from c n) ds ts) ts
      (λ j a b. lookup-create_tensors j c n ds ts (inl (omega arith)))
    ∙ h

IsServed-delete :
    (k : Lease) (ts : Dict TensorDescriptor) (l : Lease)
    → Apart l.first (count l) k.first (count k)
    → IsServed ts l
    → IsServed (delete_tensors (handles k) ts) l
IsServed-delete k ts l ap h =
    read_tensors-agree l.first (count l) (delete_tensors (handles k) ts) ts
      (λ j a b. lookup-delete_tensors j k.first (count k) ts (omega arith))
    ∙ h

AllServed-create :
    (c n : ℕ) (ds : List TensorDescriptor) (ts : Dict TensorDescriptor) (ls : List Lease)
    → AllServed c ts ls
    → AllServed (c + n) (create_tensors (handles_from c n) ds ts) ls
AllServed-create c n ds ts [] h = tt
AllServed-create c n ds ts (l ∷ ls) h =
    (omega arith, IsServed-create c n ds ts l h.0 h.1, h.2, AllServed-create c n ds ts ls h.3)

AllApart-above :
    (c : ℕ) (ts : Dict TensorDescriptor) (r : Request) (ls : List Lease)
    → AllServed c ts ls
    → AllApart (record { first = c; request = r }) ls
AllApart-above c ts r [] h = tt
AllApart-above c ts r (l ∷ ls) h = (inr h.0, AllApart-above c ts r ls h.3)

AllApart-split :
    (l k : Lease) (xs ys : List Lease)
    → AllApart l (xs ++ k ∷ ys)
    → Apart l.first (count l) k.first (count k) × AllApart l (xs ++ ys)
AllApart-split l k [] ys h = (h.0, h.1)
AllApart-split l k (x ∷ xs) ys h = let (a, b) = AllApart-split l k xs ys h.1 in (a, (h.0, b))

AllServed-delete_all :
    (c : ℕ) (k : Lease) (ts : Dict TensorDescriptor) (ls : List Lease)
    → AllApart k ls
    → AllServed c ts ls
    → AllServed c (delete_tensors (handles k) ts) ls
AllServed-delete_all c k ts [] a h = tt
AllServed-delete_all c k ts (l ∷ ls) a h =
    (h.0, IsServed-delete k ts l (omega arith) h.1, h.2, AllServed-delete_all c k ts ls a.1 h.3)

AllServed-delete :
    (c : ℕ) (ts : Dict TensorDescriptor) (xs ys : List Lease) (k : Lease)
    → AllServed c ts (xs ++ k ∷ ys)
    → AllServed c (delete_tensors (handles k) ts) (xs ++ ys)
AllServed-delete c ts [] ys k h = AllServed-delete_all c k ts ys h.2 h.3
AllServed-delete c ts (x ∷ xs) ys k h =
    let (a, b) = AllApart-split x k xs ys h.2 in
    (h.0, IsServed-delete k ts x a h.1, b, AllServed-delete c ts xs ys k h.3)

pub length-handles_from : (first n : ℕ) → length (handles_from first n) ≡ n
length-handles_from first zero = refl
length-handles_from first (suc n) = omega (arith, length-handles_from (first + 1) n)

-- What the runtime's dict will be once it has emptied the pipe.
abbrev pub upcoming : Cache → Dict TensorDescriptor
upcoming c = drain c.pipe c.allocated_tensors

pub record IsServing (s : World) : Type 0 where
  pub counted : s.cache.handle_counter < handle_limit
  pub served : AllServed s.cache.handle_counter (upcoming s.cache) s.held

schedule-IsServing :
    (s : World) (r : Request) (rest : List Request)
    → s.cache.handle_counter + length r.descriptors < handle_limit
    → IsServing s
    → IsServing (record s {
      cache = (commit r.alloc_size r.descriptors s.cache).1;
      settled = rest;
      held = record { first = s.cache.handle_counter; request = r } ∷ s.held;
    })
unfolding commit
schedule-IsServing s r rest n h = record {
  counted = rw counter n;
  served =
      subst₂ (λ j ts. AllServed j ts (record { first = c; request = r } ∷ s.held)) (sym counter)
        (sym (drain-append s.cache.pipe _ s.cache.allocated_tensors))
        (
          le_refl _,
          read_tensors-create_tensors c r.descriptors (upcoming s.cache),
          AllApart-above c (upcoming s.cache) r s.held h.served,
          AllServed-create c (length r.descriptors) r.descriptors (upcoming s.cache) s.held
              h.served,
        );
}
  where
    c : ℕ
    c = s.cache.handle_counter

    counter : add64 c (length (handles_from c (length r.descriptors))) ≡ c + length r.descriptors
    counter = omega (arith, length-handles_from c (length r.descriptors))

release-IsServing :
    (s : World) (xs ys : List Lease) (l : Lease)
    → s.held ≡ xs ++ l ∷ ys
    → IsServing s
    → IsServing
        (record s { cache = free l.request.alloc_size (handles l) s.cache; held = xs ++ ys })
unfolding free
release-IsServing s xs ys l e h = record {
  counted = h.counted;
  served =
      rw drain-append
        (AllServed-delete s.cache.handle_counter (upcoming s.cache) xs ys l (rw e at h.served));
}

use-IsServing :
    (s : World) (hs : List ℕ)
    → IsServing s
    → IsServing (record s { cache = (use_cache hs s.cache).1 })
unfolding use_cache
use-IsServing s hs h = record { counted = h.counted; served = h.served }

Step-IsServing : {s t : World} → Step s t → IsServing s → IsServing t
unfolding enqueue dequeue
Step-IsServing (arrive r e) h = record { counted = h.counted; served = h.served }
Step-IsServing (refuse_at_once xs ys r e i o) h = record { counted = h.counted; served = h.served }
Step-IsServing (expire_in_queue xs ys r e i) h = record { counted = h.counted; served = h.served }
Step-IsServing (take_lock xs ys r e n o) h = record { counted = h.counted; served = h.served }
Step-IsServing (refuse_full r e f o) h = record { counted = h.counted; served = h.served }
Step-IsServing (expire_in_lock r e i) h = record { counted = h.counted; served = h.served }
Step-IsServing (wake r e f) h = record { counted = h.counted; served = h.served }
Step-IsServing (grant r e f) h = record { counted = h.counted; served = h.served }
Step-IsServing (settle xs ys r e) h = record { counted = h.counted; served = h.served }
Step-IsServing {s} (schedule xs ys r e n) h = schedule-IsServing s r (xs ++ ys) n h
Step-IsServing {s} (release xs ys l e) h = release-IsServing s xs ys l e h
Step-IsServing {s} (use_tensors hs) h = use-IsServing s hs h

Reach-IsServing : {s t : World} → IsServing s → Reach s t → IsServing t
Reach-IsServing h here = h
Reach-IsServing h (next r st) = Step-IsServing st (Reach-IsServing h r)

start-IsServing : (m : Option ℕ) → IsServing (start m)
unfolding drain
start-IsServing m = record { counted = omega arith; served = tt }

AllServed-at :
    (c : ℕ) (ts : Dict TensorDescriptor) (xs ys : List Lease) (l : Lease)
    → AllServed c ts (xs ++ l ∷ ys)
    → IsServed ts l × AllApart l ys
AllServed-at c ts [] ys l h = (h.1, h.2)
AllServed-at c ts (x ∷ xs) ys l h = AllServed-at c ts xs ys l h.3

-- In every interleaving with fewer than 2 ** 63 handles, a lease that is held finds exactly its own
-- tensors when the runtime uses its handles, and shares no handle with the leases after it.
pub use_cache_finds_lease :
    (max_size_bytes : Option ℕ) {s : World} (xs ys : List Lease) (l : Lease)
    → Reach (start max_size_bytes) s
    → s.held ≡ xs ++ l ∷ ys
    → ((use_cache (handles l) s.cache).0 ≡ some l.request.descriptors) × AllApart l ys
unfolding use_cache
use_cache_finds_lease m {s} xs ys l r e =
    let inv = Reach-IsServing (start-IsServing m) r in
    AllServed-at s.cache.handle_counter (upcoming s.cache) xs ys l (rw e at inv.served)
