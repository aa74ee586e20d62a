-- ===== src/Arch/Efi.antt =====
-- `Efi::MemoryMap` with its `RuntimeIterator` of kernel/Source/arch/efi.hh. `attribute` reads the
-- field `Attribute` of the descriptor at an address, a number of 64 bits. The class stands under
-- `#if 0` in the source.
pub mod Iterator
pub mod Services
use yerp.Limine.{Request}
use yerp.Limine.Tables.{
  EfiMemmap, efi_desc_size, efi_desc_version, efi_memmap_address, efi_memmap_size,
}
use yerp.Memory.{Outcome, Ptr, done, ◌>>=◌}
use yerp.Prelude.{
  Bool, Option, false, if◌then◌else◌, leb, ltb, none, not, some, suc, zero, ℕ, ◌%◌, ◌*◌, ◌+◌, ◌-◌,
  ◌/◌, ◌==◌, ◌^◌,
}

-- The fields but `entryCount_`.
pub record EfiMap : Type 0 where
  pub map_base : Ptr
  pub total_size : ℕ
  pub desc_size : ℕ
  pub desc_version : ℕ

-- The constructor `MemoryMap()`, but `entryCount_`.
unfoldable pub efi_map : Request EfiMemmap → Outcome EfiMap
efi_map request = do
  base ← efi_memmap_address request
  total ← efi_memmap_size request
  size ← efi_desc_size request
  version ← efi_desc_version request
  done (record { map_base = base; total_size = total; desc_size = size; desc_version = version })

-- `entryCount_`, which the constructor computes and `entryCount` returns.
unfoldable pub efi_entry_count : EfiMap → ℕ
efi_entry_count m = if m.desc_size == 0 then 0 else m.total_size / m.desc_size

-- `none` is a null pointer.
unfoldable pub descriptor_at : EfiMap → ℕ → Option Ptr
unfolding efi_entry_count
descriptor_at m idx =
    if leb (efi_entry_count m) idx then none else some (m.map_base + idx * m.desc_size)

-- `( d->Attribute & EFI_MEMORY_RUNTIME ) != 0`: the bit 63.
unfoldable pub is_runtime : (Ptr → ℕ) → Ptr → Bool
is_runtime attribute d = not (attribute d / 2 ^ 63 % 2 == 0)

abbrev pub runtime_at : (Ptr → ℕ) → Option Ptr → Bool
runtime_at attribute none = false
runtime_at attribute (some d) = is_runtime attribute d

-- The loop of `advanceToNext` with `n` descriptors left from `idx` on.
unfoldable pub advance : (Ptr → ℕ) → EfiMap → ℕ → ℕ → ℕ
unfolding descriptor_at is_runtime
advance attribute m zero idx = idx
advance attribute m (suc n) idx =
    let rest = advance attribute m n (idx + 1) in
    if runtime_at attribute (descriptor_at m idx) then idx else rest

unfoldable pub advance_to_next : (Ptr → ℕ) → EfiMap → ℕ → ℕ
unfolding advance efi_entry_count
advance_to_next attribute m idx = advance attribute m (efi_entry_count m - idx) idx

-- An iterator is its `idx`; its `parent` is not null.
unfoldable pub iterator_valid : EfiMap → ℕ → Bool
unfolding efi_entry_count
iterator_valid m idx = ltb idx (efi_entry_count m)

unfoldable pub iterator_next : (Ptr → ℕ) → EfiMap → ℕ → ℕ
unfolding iterator_valid advance_to_next
iterator_next attribute m idx =
    if not (iterator_valid m idx) then idx else advance_to_next attribute m (idx + 1)

unfoldable pub runtime_begin : (Ptr → ℕ) → EfiMap → ℕ
unfolding advance_to_next
runtime_begin attribute m = advance_to_next attribute m 0

unfoldable pub runtime_end : (Ptr → ℕ) → EfiMap → ℕ
unfolding advance_to_next efi_entry_count
runtime_end attribute m = advance_to_next attribute m (efi_entry_count m)
