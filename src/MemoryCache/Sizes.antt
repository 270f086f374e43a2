-- ===== src/MemoryCache/Sizes.antt =====
-- `get_allocation_size`: the size on the device that gets the most.
use subnet_llm_template.Prelude.{
  ℕ, ◌+◌, ◌≤◌, ◌≡◌, ap, some, List, [], ◌∷◌, arith, ◌==◌, if◌then◌else◌,
}
use native.Mathlib.Decide.{dec_le}
use subnet_llm_template.Prelude.Dict.{Dict, lookup, insert, lookup-insert, IsDict, insert-IsDict}
use subnet_llm_template.MemoryCache.{
  TensorDescriptor, tensor_size, get_or_zero, size_by_device, max_value, get_allocation_size,
}

-- The bytes that the descriptors need on one device.
pub device_size : ℕ → List TensorDescriptor → ℕ
device_size device [] = 0
device_size device (descr ∷ descriptors) =
    (if device == descr.device then tensor_size descr else 0) + device_size device descriptors

size_by_device_lem :
    (device : ℕ) (descriptors : List TensorDescriptor) (sizes : Dict ℕ)
    → get_or_zero (lookup device (size_by_device descriptors sizes))
      ≡ get_or_zero (lookup device sizes) + device_size device descriptors
unfolding size_by_device device_size
size_by_device_lem device [] sizes = omega arith
size_by_device_lem device (descr ∷ descriptors) sizes =
    let n : ℕ = get_or_zero (lookup descr.device sizes) + tensor_size descr in
    ground (
      arith,
      size_by_device_lem device descriptors (insert descr.device n sizes),
      lookup-insert device descr.device n sizes,
    )

max_value-upper :
    (k : ℕ) (sizes : Dict ℕ) → get_or_zero (lookup k sizes) ≤ get_or_zero (max_value sizes)
unfolding max_value
max_value-upper k [] = omega arith
max_value-upper k (e ∷ sizes) = ground (arith, max_value-upper k sizes)

max_value-attained :
    (sizes : Dict ℕ) {n : ℕ}
    → IsDict sizes
    → max_value sizes ≡ some n
    → (k : ℕ) × (lookup k sizes ≡ some n)
unfolding max_value
max_value-attained [] h e = cc
max_value-attained ((k, v) ∷ []) h e = (k, ground arith)
max_value-attained ((k, v) ∷ f ∷ sizes) {n} h e =
    elim (dec_le (get_or_zero (max_value (f ∷ sizes))) v) [
      | yes le ↦ (k, ground arith)
      | no more ↦ later (max_value-attained (f ∷ sizes) h.1 (ground arith))
    ]
  where
    later :
        (j : ℕ) × (lookup j (f ∷ sizes) ≡ some n)
        → (j : ℕ) × (lookup j ((k, v) ∷ f ∷ sizes) ≡ some n)
    later (j, found) = (j, ground arith)

size_by_device-IsDict :
    (descriptors : List TensorDescriptor) (sizes : Dict ℕ)
    → IsDict sizes
    → IsDict (size_by_device descriptors sizes)
unfolding size_by_device
size_by_device-IsDict [] sizes h = h
size_by_device-IsDict (descr ∷ descriptors) sizes h =
    size_by_device-IsDict descriptors _ (insert-IsDict descr.device _ sizes h)

-- The result is the most that some device gets: no device gets more, and one gets as much.
pub get_allocation_size_lem :
    (descriptors : List TensorDescriptor) {n : ℕ}
    → get_allocation_size descriptors ≡ some n
    → ((device : ℕ) → device_size device descriptors ≤ n)
      × ((device : ℕ) × (device_size device descriptors ≡ n))
unfolding get_allocation_size
get_allocation_size_lem descriptors {n} e = (
  λ device. omega (
    arith,
    size_by_device_lem device descriptors [],
    max_value-upper device (size_by_device descriptors []),
    ap get_or_zero e,
  ),
  let (k, found) =
        max_value-attained (size_by_device descriptors []) (size_by_device-IsDict descriptors [] tt)
          e in
      (k, omega (arith, size_by_device_lem k descriptors [], ap get_or_zero found)),
)
