-- ===== src/Pmm/Init.antt =====
-- `init` of kernel/Source/core/pmm.hh, with `Limine::MemoryMap` of kernel/Source/core/limine.hh.
-- The number that the bootloader protocol gives to usable memory, LIMINE_MEMMAP_USABLE, is the
-- argument `usable`.
pub mod Entry
pub mod Map
use yerp.Pmm.{Pmm, Run, add_region, crashed, halted, no_rounds, returned}
use yerp.Prelude.{
  Bool, List, Option, [], false, if◌then◌else◌, leb, ltb, map, none, not, some, suc, zero, ℕ, ◌%◌,
  ◌&&◌, ◌+◌, ◌-◌, ◌==◌, ◌^◌, ◌||◌, ◌∷◌,
}

abbrev pub min_physical : ℕ
min_physical = 1048576

pub record MemmapEntry : Type 0 where
  pub base : ℕ
  pub length : ℕ
  pub entry_type : ℕ

pub record MemmapResponse : Type 0 where
  pub revision : ℕ
  pub entry_count : ℕ
  pub entries : ℕ → MemmapEntry

-- `request.response`
abbrev pub MemoryMap : Type 0
MemoryMap = Option MemmapResponse

unfoldable pub map_available : MemoryMap → Bool
map_available none = false
map_available (some r) = not (r.revision == 0) && ltb 0 r.entry_count

unfoldable pub map_entry_count : MemoryMap → ℕ
map_entry_count none = 0
map_entry_count (some r) = if not (map_available (some r)) then 0 else r.entry_count

-- `none` is a null pointer.
unfoldable pub map_entry_at : MemoryMap → ℕ → Option MemmapEntry
unfolding map_available map_entry_count
map_entry_at none idx = none
map_entry_at (some r) idx =
    if not (map_available (some r)) || leb (map_entry_count (some r)) idx
    then none
    else some (r.entries idx)

-- The first `n` elements of a sequence, from the element `i` on.
abbrev pub elements : ℕ → ℕ → (ℕ → MemmapEntry) → List MemmapEntry
elements zero i f = []
elements (suc n) i f = f i ∷ elements n (i + 1) f

unfoldable pub map_entries : MemoryMap → List MemmapEntry
unfolding map_available
map_entries none = []
map_entries (some r) =
    if not (map_available (some r)) then [] else elements r.entry_count 0 r.entries

-- What the loop of `init` does with one entry.
unfoldable pub add_entry : ℕ → Pmm → MemmapEntry → Run Pmm
add_entry usable s entry =
    if entry.entry_type == usable
    then (let region_end = (entry.base + entry.length) % 2 ^ 64 in
        if leb region_end min_physical
        then returned s
        else (let region_start = if ltb entry.base min_physical then min_physical else entry.base in
            add_region s region_start ((region_end + 2 ^ 64 - region_start) % 2 ^ 64)))
    else returned s

-- `for ( i = 0; i < count; ++i )` with `n` rounds left.
unfoldable pub init_loop : ℕ → ℕ → MemoryMap → Pmm → ℕ → Run Pmm
init_loop usable zero map s i = returned s
init_loop usable (suc n) map s i = elim (map_entry_at map i) [
  | none ↦ crashed
  | some entry ↦ elim (add_entry usable s entry) [
    | returned s' ↦ init_loop usable n map s' (i + 1)
    | halted ↦ halted
    | crashed ↦ crashed
    | no_rounds ↦ no_rounds
  ]
]

unfoldable pub init : ℕ → MemoryMap → Pmm → Run Pmm
unfolding init_loop map_available map_entry_count
init usable map s =
    if not (map_available map) then halted else init_loop usable (map_entry_count map) map s 0
