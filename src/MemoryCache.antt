-- ===== src/MemoryCache.antt =====
-- src/subnet/server/memory_cache.py: the attention cache that connection handlers (many processes)
-- reserve and that the runtime (one process) fills. The fields are the shared memory of
-- `MemoryCache`; a descriptor stands for the tensor of zeros that `make_zeros` builds from it.
pub mod Steps
pub mod Sizes
pub mod Accounting
pub mod Handles
pub mod Leases
pub mod Budget
pub mod Race
mod Tests
use subnet_llm_template.Prelude.{
  ℕ, zero, suc, ◌+◌, ◌*◌, Bool, true, false, ◌&&◌, Option, none, some, List, [], ◌∷◌, ◌++◌, length,
  max, if◌then◌else◌,
}
use subnet_llm_template.Prelude.Int.{ℤ, pos, ◌+ℤ◌, ltb_ℤ}
use subnet_llm_template.Prelude.Dict.{Dict, lookup, insert, erase}
use subnet_llm_template.Prelude.Words.{add64, sub64, signed}

-- The parts of a hivemind `TensorDescriptor` that are read here.
pub record TensorDescriptor : Type 0 where
  pub device : ℕ
  pub numel : ℕ
  pub dtype_bytes : ℕ

-- What goes through the pipe to the runtime: `(handles, descriptors)` or `(handles, None)`.
pub data Message : Type 0 where
  create : List ℕ → List TensorDescriptor → Message
  delete : List ℕ → Message

pub record Cache : Type 0 where
  pub max_size_bytes : ℕ
  pub current_size : ℕ
  pub enqueued_size : ℕ
  pub handle_counter : ℕ
  pub pipe : List Message
  pub allocated_tensors : Dict TensorDescriptor
  pub memory_freed_event : Bool

abbrev pub i64_limit : ℕ
i64_limit = 18446744073709551615

-- `__init__`: with no limit given the limit is 2 ** 64 - 1.
abbrev pub default_size : Option ℕ → ℕ
default_size none = i64_limit
default_size (some n) = n

abbrev pub init : Option ℕ → Cache
init max_size_bytes = record {
  max_size_bytes = default_size max_size_bytes;
  current_size = 0;
  enqueued_size = 0;
  handle_counter = 0;
  pipe = [];
  allocated_tensors = [];
  memory_freed_event = false;
}

abbrev pub tensor_size : TensorDescriptor → ℕ
tensor_size descr = descr.numel * descr.dtype_bytes

abbrev pub get_or_zero : Option ℕ → ℕ
get_or_zero none = 0
get_or_zero (some n) = n

-- `alloc_size_by_device` after the loop of `get_allocation_size`.
unfoldable pub size_by_device : List TensorDescriptor → Dict ℕ → Dict ℕ
size_by_device [] sizes = sizes
size_by_device (descr ∷ descriptors) sizes =
    size_by_device descriptors
      (insert descr.device (get_or_zero (lookup descr.device sizes) + tensor_size descr) sizes)

-- `max(values)`; Python raises on no values.
unfoldable pub max_value : Dict ℕ → Option ℕ
max_value [] = none
max_value ((_, n) ∷ sizes) = some (max n (get_or_zero (max_value sizes)))

unfoldable pub get_allocation_size : List TensorDescriptor → Option ℕ
unfolding size_by_device max_value
get_allocation_size descriptors = max_value (size_by_device descriptors [])

-- `self._enqueued_size.value += alloc_size`
unfoldable pub enqueue : ℕ → Cache → Cache
enqueue alloc_size c = record c { enqueued_size = add64 c.enqueued_size alloc_size }

-- `self._enqueued_size.value -= alloc_size`, on success and in `finally`
unfoldable pub dequeue : ℕ → Cache → Cache
dequeue alloc_size c = record c { enqueued_size = sub64 c.enqueued_size alloc_size }

-- The test before the lock is taken, for a timeout of 0.
unfoldable pub out_of_memory_at_once : Cache → Bool
out_of_memory_at_once c =
    ltb_ℤ (pos c.max_size_bytes) (signed c.current_size +ℤ signed c.enqueued_size)

-- The test of the loop in `_wait_until_available`, and of the code before it.
unfoldable pub is_full : ℕ → Cache → Bool
is_full alloc_size c = ltb_ℤ (pos c.max_size_bytes) (signed c.current_size +ℤ pos alloc_size)

-- `(first, first + 1, …)`
abbrev pub handles_from : ℕ → ℕ → List ℕ
handles_from first zero = []
handles_from first (suc n) = first ∷ handles_from (first + 1) n

-- The block of `_schedule_alloc` under `_lock_metadata`, and the handles that it returns.
unfoldable pub commit : ℕ → List TensorDescriptor → Cache → List ℕ × Cache
commit alloc_size descriptors c =
    let handles = handles_from c.handle_counter (length descriptors) in
    (
      handles,
      record c {
        current_size = add64 c.current_size alloc_size;
        handle_counter = add64 c.handle_counter (length handles);
        pipe = c.pipe ++ create handles descriptors ∷ [];
      },
    )

-- `_free`, for a task that has its handles.
unfoldable pub free : ℕ → List ℕ → Cache → Cache
free alloc_size handles c = record c {
  pipe = c.pipe ++ delete handles ∷ [];
  current_size = sub64 c.current_size alloc_size;
  memory_freed_event = true;
}

abbrev pub create_tensors :
    List ℕ → List TensorDescriptor → Dict TensorDescriptor → Dict TensorDescriptor
create_tensors [] descriptors tensors = tensors
create_tensors (h ∷ handles) [] tensors = tensors
create_tensors (h ∷ handles) (descr ∷ descriptors) tensors =
    create_tensors handles descriptors (insert h descr tensors)

abbrev pub delete_tensors : List ℕ → Dict TensorDescriptor → Dict TensorDescriptor
delete_tensors [] tensors = tensors
delete_tensors (h ∷ handles) tensors = delete_tensors handles (erase h tensors)

abbrev pub receive : Message → Dict TensorDescriptor → Dict TensorDescriptor
receive (create handles descriptors) tensors = create_tensors handles descriptors tensors
receive (delete handles) tensors = delete_tensors handles tensors

-- The `while` loop of `use_cache`, which empties the pipe.
unfoldable pub drain : List Message → Dict TensorDescriptor → Dict TensorDescriptor
drain [] tensors = tensors
drain (m ∷ pipe) tensors = drain pipe (receive m tensors)

-- The tensors of the handles; `none` where Python raises KeyError.
unfoldable pub read_tensors : List ℕ → Dict TensorDescriptor → Option (List TensorDescriptor)
read_tensors [] tensors = some []
read_tensors (h ∷ handles) tensors = elim (lookup h tensors) [
  | none ↦ none
  | some t ↦ elim (read_tensors handles tensors) [ none ↦ none | some ts ↦ some (t ∷ ts) ]
]

unfoldable pub use_cache : List ℕ → Cache → Option (List TensorDescriptor) × Cache
unfolding drain read_tensors
use_cache handles c =
    let tensors = drain c.pipe c.allocated_tensors in
    (read_tensors handles tensors, record c { pipe = []; allocated_tensors = tensors })

-- How `_memory_freed_event.wait` comes back: the event was set, or the time is over. While it
-- waits other processes may have changed the sizes: the cache as it is read next comes with it.
pub data Wake : Type 0 where
  freed : Cache → Wake
  timed_out : Wake

pub data Outcome : Type 0 where
  available : Cache → Outcome
  failed : Outcome
  waiting : Outcome

unfoldable pub wait_loop : ℕ → List Wake → Cache → Outcome
wait_loop alloc_size [] c = if is_full alloc_size c then waiting else available c
wait_loop alloc_size (timed_out ∷ wakes) c = if is_full alloc_size c then failed else available c
wait_loop alloc_size (freed c' ∷ wakes) c =
    let rest = wait_loop alloc_size wakes (record c' { memory_freed_event = false }) in
    if is_full alloc_size c then rest else available c

unfoldable pub wait_until_available : ℕ → List Wake → Cache → Outcome
unfolding wait_loop
wait_until_available alloc_size wakes c =
    if ltb_ℤ (pos c.max_size_bytes) (pos alloc_size) then failed else wait_loop alloc_size wakes c
