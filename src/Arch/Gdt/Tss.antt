-- ===== src/Arch/Gdt/Tss.antt =====
-- What the processor reads from the descriptors.
use yerp.Arch.Gdt.{GdtEntry, tss_entry, tss_size}
use yerp.Prelude.{Bool, arith, refl, true, ℕ, ◌%◌, ◌*◌, ◌+◌, ◌-◌, ◌/◌, ◌<◌, ◌==◌, ◌^◌, ◌↔◌, ◌≡◌}

abbrev pub entry_base : GdtEntry → ℕ
entry_base e = e.base_low + e.base_mid * 2 ^ 16 + e.base_high * 2 ^ 24

-- The low half of `granularity` holds the bits 16 to 19 of the limit.
abbrev pub entry_limit : GdtEntry → ℕ
entry_limit e = e.limit_low + e.granularity % 16 * 2 ^ 16

abbrev pub privilege : GdtEntry → ℕ
privilege e = e.access / 32 % 4

abbrev pub is_present : GdtEntry → Bool
is_present e = e.access / 128 % 2 == 1

abbrev pub is_code : GdtEntry → Bool
is_code e = e.access / 8 % 2 == 1

-- The descriptor of a TSS at a 64-bit address is present, at the privilege level 0, and holds this
-- address. Its limit is the size of the TSS less 1 exactly when the bits 24 to 27 of the address
-- are 0; otherwise these bits stand in the limit.
pub tss_entry-decoded :
    (address : ℕ)
    → address < 2 ^ 64
    → (entry_base (tss_entry address).entry + (tss_entry address).base_upper * 2 ^ 32 ≡ address)
      × (is_present (tss_entry address).entry ≡ true)
      × (privilege (tss_entry address).entry ≡ 0)
      × (entry_limit (tss_entry address).entry ≡ tss_size - 1 + address / 2 ^ 24 % 16 * 2 ^ 16)
      × ((entry_limit (tss_entry address).entry ≡ tss_size - 1) ↔ (address / 2 ^ 24 % 16 ≡ 0))
unfolding tss_entry
tss_entry-decoded address word =
    (omega arith, refl, refl, omega arith, ((λ h. omega arith), (λ h. omega arith)))
