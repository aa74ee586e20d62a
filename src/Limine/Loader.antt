-- ===== src/Limine/Loader.antt =====
-- `BootloaderInfo`, `ExecutableCmdline`, `FirmwareType` and `ExecutableAddressInfo` of
-- kernel/Source/core/limine.hh. The numbers LIMINE_FIRMWARE_TYPE_* of the bootloader protocol are
-- arguments.
use yerp.Ktl.StringView.{StringView, empty_view}
use yerp.Limine.{Request, answered, field, text_at}
use yerp.Memory.{Memory, Outcome, Ptr, done, ◌>>=◌}
use yerp.Prelude.{Bool, if◌then◌else◌, not, ℕ, ◌-◌, ◌==◌, ◌^◌}

pub record BootloaderInfo : Type 0 where
  pub loader_name : Ptr
  pub loader_version : Ptr

unfoldable pub bootloader_available : Request BootloaderInfo → Bool
bootloader_available request = answered request

unfoldable pub bootloader_name : ℕ → Memory → Request BootloaderInfo → Outcome StringView
unfolding bootloader_available
bootloader_name f m request =
    if not (bootloader_available request)
    then done empty_view
    else (do p ← field request (λ a. a.loader_name); text_at f m p)

unfoldable pub bootloader_version : ℕ → Memory → Request BootloaderInfo → Outcome StringView
unfolding bootloader_available
bootloader_version f m request =
    if not (bootloader_available request)
    then done empty_view
    else (do p ← field request (λ a. a.loader_version); text_at f m p)

-- The answer is the pointer `cmdline`.
unfoldable pub cmdline_available : Request Ptr → Bool
cmdline_available request = answered request

unfoldable pub cmdline : ℕ → Memory → Request Ptr → Outcome StringView
unfolding cmdline_available
cmdline f m request =
    if not (cmdline_available request)
    then done empty_view
    else (do p ← field request (λ p. p); text_at f m p)

-- The answer is the number `firmware_type`.
unfoldable pub firmware_available : Request ℕ → Bool
firmware_available request = answered request

-- `static_cast<u64>( -1 )` when it is not available.
unfoldable pub firmware_type : Request ℕ → Outcome ℕ
unfolding firmware_available
firmware_type request =
    if not (firmware_available request) then done (2 ^ 64 - 1) else field request (λ t. t)

-- LIMINE_FIRMWARE_TYPE_X86BIOS, _UEFI32, _UEFI64 and _SBI
pub record FirmwareTypes : Type 0 where
  pub x86bios : ℕ
  pub uefi32 : ℕ
  pub uefi64 : ℕ
  pub sbi : ℕ

-- The literal that `asString` returns: none, "x86 BIOS", "UEFI (32-bit)", "UEFI (64-bit)",
-- "SBI (RISC-V)" or "Unknown".
pub data FirmwareName : Type 0 where
  no_name : FirmwareName
  x86_bios_name : FirmwareName
  uefi_32_name : FirmwareName
  uefi_64_name : FirmwareName
  sbi_name : FirmwareName
  unknown_name : FirmwareName

-- `switch ( request.response->firmware_type )`
unfoldable pub name_of_firmware : FirmwareTypes → ℕ → FirmwareName
name_of_firmware types t =
    if t == types.x86bios
    then x86_bios_name
    else (if t == types.uefi32
        then uefi_32_name
        else (if t == types.uefi64
            then uefi_64_name
            else (if t == types.sbi then sbi_name else unknown_name)))

unfoldable pub firmware_as_string : FirmwareTypes → Request ℕ → Outcome FirmwareName
unfolding firmware_available name_of_firmware
firmware_as_string types request =
    if not (firmware_available request)
    then done no_name
    else (do t ← field request (λ t. t); done (name_of_firmware types t))

pub record ExecutableAddress : Type 0 where
  pub answered_physical : ℕ
  pub answered_virtual : ℕ

unfoldable pub address_available : Request ExecutableAddress → Bool
address_available request = answered request

unfoldable pub physical_base : Request ExecutableAddress → Outcome ℕ
unfolding address_available
physical_base request =
    if not (address_available request) then done 0 else field request (λ a. a.answered_physical)

unfoldable pub virtual_base : Request ExecutableAddress → Outcome ℕ
unfolding address_available
virtual_base request =
    if not (address_available request) then done 0 else field request (λ a. a.answered_virtual)
