-- ===== src/Limine/Tables.antt =====
-- `EFISupport`, `RSDPInfo`, `SMBIOSInfo` and `BootTime` of kernel/Source/core/limine.hh, whose
-- members follow the response without a test.
use yerp.Limine.{Request, field, has_revision}
use yerp.Memory.{Outcome, Ptr}
use yerp.Prelude.{Bool, ℕ}
use yerp.Prelude.Int.{ℤ}

-- The answer is the number `address`.
unfoldable pub system_table_available : Request ℕ → Outcome Bool
system_table_available request = has_revision request

unfoldable pub efi_system_table_address : Request ℕ → Outcome ℕ
efi_system_table_address request = field request (λ a. a)

pub record EfiMemmap : Type 0 where
  pub memmap : Ptr
  pub memmap_size : ℕ
  pub memmap_desc_size : ℕ
  pub memmap_desc_version : ℕ

unfoldable pub memmap_available : Request EfiMemmap → Outcome Bool
memmap_available request = has_revision request

unfoldable pub efi_memmap_address : Request EfiMemmap → Outcome Ptr
efi_memmap_address request = field request (λ a. a.memmap)

unfoldable pub efi_memmap_size : Request EfiMemmap → Outcome ℕ
efi_memmap_size request = field request (λ a. a.memmap_size)

unfoldable pub efi_desc_size : Request EfiMemmap → Outcome ℕ
efi_desc_size request = field request (λ a. a.memmap_desc_size)

unfoldable pub efi_desc_version : Request EfiMemmap → Outcome ℕ
efi_desc_version request = field request (λ a. a.memmap_desc_version)

-- The answer is the number `address`.
unfoldable pub rsdp_available : Request ℕ → Outcome Bool
rsdp_available request = has_revision request

unfoldable pub rsdp_address : Request ℕ → Outcome ℕ
rsdp_address request = field request (λ a. a)

pub record Smbios : Type 0 where
  pub answered_entry_32 : ℕ
  pub answered_entry_64 : ℕ

unfoldable pub smbios_available : Request Smbios → Outcome Bool
smbios_available request = has_revision request

unfoldable pub entry32 : Request Smbios → Outcome ℕ
entry32 request = field request (λ a. a.answered_entry_32)

unfoldable pub entry64 : Request Smbios → Outcome ℕ
entry64 request = field request (λ a. a.answered_entry_64)

-- The answer is the number `timestamp`, of the revisions from 3 on.
unfoldable pub boot_time_available : Request ℤ → Outcome Bool
boot_time_available request = has_revision request

unfoldable pub timestamp : Request ℤ → Outcome ℤ
timestamp request = field request (λ a. a)
