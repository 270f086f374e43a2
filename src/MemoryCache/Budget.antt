-- ===== src/MemoryCache/Budget.antt =====
-- The limit `max_size_bytes` over the interleavings of `allocate_cache`. `_wait_for_free_memory`
-- gives the lock back before `_schedule_alloc` adds the size.
use subnet_llm_template.Prelude.{
  ℕ, ◌+◌, ◌≤◌, ◌≡◌, ◌↔◌, ◌%◌, refl, false, none, some, [], ◌∷◌, arith,
}
use subnet_llm_template.Prelude.Words.{i64_max, i64_mod}
use subnet_llm_template.Prelude.Int.{◌+ℤ◌}
use subnet_llm_template.MemoryCache.{Cache, is_full, enqueue, dequeue, commit, free, use_cache}
use subnet_llm_template.MemoryCache.Steps.{
  Request, World, start, Step, arrive, refuse_at_once, expire_in_queue, take_lock, refuse_full,
  expire_in_lock, wake, grant, settle, schedule, release, use_tensors, here,
}
use subnet_llm_template.MemoryCache.Accounting.{
  total, total_held, total-split, total_held-split, IsAccounted, Step-IsAccounted,
  Reach-start-IsAccounted,
}

-- The step lets a call through only if no other is on its way to add its size.
abbrev pub IsSerial : {s t : World} → Step s t → Type 0
IsSerial {s} (grant r e f) = (s.granted ≡ []) × (s.settled ≡ [])
IsSerial (arrive r e) = Unit
IsSerial (refuse_at_once xs ys r e i o) = Unit
IsSerial (expire_in_queue xs ys r e i) = Unit
IsSerial (take_lock xs ys r e n o) = Unit
IsSerial (refuse_full r e f o) = Unit
IsSerial (expire_in_lock r e i) = Unit
IsSerial (wake r e f) = Unit
IsSerial (settle xs ys r e) = Unit
IsSerial (schedule xs ys r e n) = Unit
IsSerial (release xs ys l e) = Unit
IsSerial (use_tensors hs) = Unit

pub data SerialReach (s : World) : World → Type 0 where
  at_start : SerialReach s s
  then_step : {t u : World} → SerialReach s t → (st : Step t u) → IsSerial st → SerialReach s u

abbrev pub IsWithin : ℕ → World → Type 0
IsWithin limit s =
    (s.cache.max_size_bytes ≡ limit)
    × (total s.granted + total s.settled + total_held s.held ≤ limit)

-- What the test for room decides, while the size in use is below 2 ** 63.
pub is_full_iff :
    (alloc_size n : ℕ) (c : Cache)
    → c.current_size ≡ n % i64_mod
    → n ≤ i64_max
    → (is_full alloc_size c ≡ false) ↔ (n + alloc_size ≤ c.max_size_bytes)
unfolding is_full ◌+ℤ◌
is_full_iff a n c e small = (λ h. room h, λ h. fits h)
  where
    same : c.current_size ≡ n
    same = omega arith

    room : is_full a c ≡ false → n + a ≤ c.max_size_bytes
    room h = ground arith

    fits : n + a ≤ c.max_size_bytes → is_full a c ≡ false
    fits h = ground arith

grant-IsWithin :
    (limit : ℕ) (s : World) (r : Request)
    → limit ≤ i64_max
    → (s.granted ≡ []) × (s.settled ≡ [])
    → is_full r.alloc_size s.cache ≡ false
    → IsAccounted s
    → IsWithin limit s
    → IsWithin limit (record s { lock = none; granted = r ∷ s.granted })
unfolding total
grant-IsWithin limit s r small q f a h =
    let fits = (is_full_iff r.alloc_size (total_held s.held) s.cache a.current (omega arith)).0 f in
    (h.0, rw (q.0, q.1) (omega arith))

Step-IsWithin :
    (limit : ℕ) {s t : World} (st : Step s t)
    → limit ≤ i64_max
    → IsSerial st
    → IsAccounted s
    → IsWithin limit s
    → IsWithin limit t
unfolding total total_held enqueue dequeue commit free use_cache
Step-IsWithin limit (arrive r e) small q a h = h
Step-IsWithin limit (refuse_at_once xs ys r e i o) small q a h = h
Step-IsWithin limit (expire_in_queue xs ys r e i) small q a h = h
Step-IsWithin limit (take_lock xs ys r e n o) small q a h = h
Step-IsWithin limit (refuse_full r e f o) small q a h = h
Step-IsWithin limit (expire_in_lock r e i) small q a h = h
Step-IsWithin limit (wake r e f) small q a h = h
Step-IsWithin limit {s} (grant r e f) small q a h = grant-IsWithin limit s r small q f a h
Step-IsWithin limit (settle xs ys r e) small q a h = ground (arith, total-split xs ys r)
Step-IsWithin limit (schedule xs ys r e n) small q a h = ground (arith, total-split xs ys r)
Step-IsWithin limit (release xs ys l e) small q a h = ground (arith, total_held-split xs ys l)
Step-IsWithin limit (use_tensors hs) small q a h = h

SerialReach-IsWithin :
    (limit : ℕ) {s t : World}
    → limit ≤ i64_max
    → IsAccounted s
    → IsWithin limit s
    → SerialReach s t
    → IsAccounted t × IsWithin limit t
SerialReach-IsWithin limit small a h at_start = (a, h)
SerialReach-IsWithin limit small a h (then_step r st q) =
    let (b, k) = SerialReach-IsWithin limit small a h r in
    (Step-IsAccounted st b, Step-IsWithin limit st small q b k)

-- While no call is let through as long as another still has to add its size, the leases that are
-- held never exceed a limit below 2 ** 63.
pub serial_within_limit :
    (limit : ℕ) {s : World}
    → limit ≤ i64_max
    → SerialReach (start (some limit)) s
    → total_held s.held ≤ limit
unfolding total total_held
serial_within_limit limit small r =
    let (b, k) =
      SerialReach-IsWithin limit small (Reach-start-IsAccounted (some limit) here)
        (refl, omega arith) r in
    omega arith
