-- ===== src/Ktl/Slice.antt =====
-- `ktl::slice` of kernel/Source/ktl/slice. A pointer is the index of an element, and a size a
-- number of 64 bits. `dynamic_extent` is the largest one.
pub mod Elements
use yerp.Prelude.{
  Bool, false, if◌then◌else◌, ltb, suc, true, zero, ℕ, ◌%◌, ◌+◌, ◌-◌, ◌==◌, ◌^◌, ◌||◌,
}

pub record Slice : Type 0 where
  pub slice_data : ℕ
  pub slice_size : ℕ

abbrev pub dynamic_extent : ℕ
dynamic_extent = 2 ^ 64 - 1

unfoldable pub subslice : Slice → ℕ → ℕ → Slice
subslice s offset count =
    let avail = if ltb offset s.slice_size then s.slice_size - offset else 0 in
    let len = if (count == dynamic_extent) || ltb avail count then avail else count in
    record { slice_data = s.slice_data + offset; slice_size = len }

unfoldable pub first : Slice → ℕ → Slice
unfolding subslice
first s n = subslice s 0 n

-- `size() - n` wraps.
unfoldable pub last : Slice → ℕ → Slice
unfolding subslice
last s n = subslice s ((s.slice_size + 2 ^ 64 - n) % 2 ^ 64) n

unfoldable pub slice_remove_prefix : Slice → ℕ → Slice
slice_remove_prefix s n =
    let k = if ltb s.slice_size n then s.slice_size else n in
    record { slice_data = s.slice_data + k; slice_size = s.slice_size - k }

unfoldable pub slice_remove_suffix : Slice → ℕ → Slice
slice_remove_suffix s n =
    let k = if ltb s.slice_size n then s.slice_size else n in
    record s { slice_size = s.slice_size - k }

-- The loop of `operator==` over `n` elements from `i` on; an element is a number.
unfoldable pub equal_loop : (ℕ → ℕ) → Slice → Slice → ℕ → ℕ → Bool
equal_loop cells a b zero i = true
equal_loop cells a b (suc n) i =
    if cells (a.slice_data + i) == cells (b.slice_data + i)
    then equal_loop cells a b n (i + 1)
    else false

unfoldable pub slice_eq : (ℕ → ℕ) → Slice → Slice → Bool
unfolding equal_loop
slice_eq cells a b =
    if a.slice_size == b.slice_size then equal_loop cells a b a.slice_size 0 else false
