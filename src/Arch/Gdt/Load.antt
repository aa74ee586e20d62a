-- ===== src/Arch/Gdt/Load.antt =====
-- What the selectors that `load` of kernel/Source/arch/gdt.hh writes lead to.
use yerp.Arch.Gdt.{GdtEntry, Segments, gdt_entries, tss_entry}
use yerp.Arch.Gdt.Tss.{is_code, is_present, privilege}
use yerp.Prelude.{
  Bool, List, Option, [], get_elem?, if◌then◌else◌, leb, none, some, true, ℕ, ◌*◌, ◌++◌, ◌+◌, ◌/◌,
  ◌∷◌, ◌≡◌,
}

-- The table's entries of 8 bytes, up to the first half of the descriptor of a TSS at `tss`.
abbrev pub table_of : ℕ → List GdtEntry
table_of tss = gdt_entries ++ (tss_entry tss).entry ∷ []

-- The processor finds the `size` bytes of a descriptor by the upper bits of its selector, within
-- the limit.
abbrev pub descriptor_of : Segments → ℕ → ℕ → ℕ → Option GdtEntry
descriptor_of cpu tss size selector =
    if leb (selector / 8 * 8 + size) (cpu.gdtr_limit + 1)
    then get_elem? (table_of tss) (selector / 8)
    else none

-- The selector leads to a segment for the kernel that is present, for code or for data.
abbrev pub IsKernelSegment : Segments → ℕ → Bool → ℕ → Type 0
IsKernelSegment cpu tss code selector =
    (e : GdtEntry) × (descriptor_of cpu tss 8 selector ≡ some e)
    × (is_present e ≡ true)
    × (privilege e ≡ 0)
    × (is_code e ≡ code)
