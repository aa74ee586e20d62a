-- ===== src/Limine/Guards.antt =====
-- The members of kernel/Source/core/limine.hh that test the answer.
use yerp.Limine.Framebuffer.{Framebuffers, framebuffer_available, framebuffer_count}
use yerp.Limine.Loader.{
  ExecutableAddress, FirmwareTypes, address_available, firmware_as_string, firmware_available,
  firmware_type, name_of_firmware, no_name, physical_base, sbi_name, uefi_32_name, uefi_64_name,
  virtual_base, x86_bios_name,
}
use yerp.Memory.{done}
use yerp.Prelude.{
  Bool-cases, arith, false, inl, inr, ltb, none, refl, some, suc, ℕ, ◌-◌, ◌==◌, ◌^◌, ◌≡◌, ◌≢◌,
}

-- The members that test the answer return the number that the bootloader gives when its revision is
-- not 0. When the revision is 0 and when there is no answer they return 0, and the type of the
-- firmware is 2 ^ 64 - 1.
pub guarded-numbers :
    (revision t : ℕ) (a : ExecutableAddress) (b : Framebuffers)
    → ((firmware_type (some (record { response_revision = suc revision; answer = t })) ≡ done t)
        × (physical_base (some (record { response_revision = suc revision; answer = a }))
            ≡ done a.answered_physical)
        × (virtual_base (some (record { response_revision = suc revision; answer = a }))
            ≡ done a.answered_virtual)
        × (framebuffer_count (some (record { response_revision = suc revision; answer = b }))
            ≡ done b.framebuffer_total))
      × ((firmware_type (some (record { response_revision = 0; answer = t })) ≡ done (2 ^ 64 - 1))
          × (physical_base (some (record { response_revision = 0; answer = a })) ≡ done 0)
          × (virtual_base (some (record { response_revision = 0; answer = a })) ≡ done 0)
          × (framebuffer_count (some (record { response_revision = 0; answer = b })) ≡ done 0))
      × (firmware_type none ≡ done (2 ^ 64 - 1))
      × (physical_base none ≡ done 0)
      × (virtual_base none ≡ done 0)
      × (framebuffer_count none ≡ done 0)
unfolding firmware_type firmware_available physical_base virtual_base address_available
    framebuffer_count framebuffer_available
guarded-numbers revision t a b =
    let revised : (suc revision == 0) ≡ false = ground arith in
    (
      (
        rw revised,
        rw revised,
        rw revised,
        elim (Bool-cases (ltb 0 b.framebuffer_total)) [
          | inl some_there ↦ rw (revised, some_there)
          | inr none_there ↦ rw (revised, none_there) (ground arith)
        ],
      ),
      (refl, refl, refl, refl),
      refl,
      refl,
      refl,
      refl,
    )

-- `asString` names each of the four types of the bootloader protocol, which are four different
-- numbers, and calls every other number unknown; it names none when there is no answer.
pub firmware_as_string-name :
    (types : FirmwareTypes) (revision t : ℕ)
    → types.x86bios ≢ types.uefi32
    → types.x86bios ≢ types.uefi64
    → types.x86bios ≢ types.sbi
    → types.uefi32 ≢ types.uefi64
    → types.uefi32 ≢ types.sbi
    → types.uefi64 ≢ types.sbi
    → ((firmware_as_string types
            (some (record { response_revision = suc revision; answer = types.x86bios }))
          ≡ done x86_bios_name)
        × (firmware_as_string types
              (some (record { response_revision = suc revision; answer = types.uefi32 }))
            ≡ done uefi_32_name)
        × (firmware_as_string types
              (some (record { response_revision = suc revision; answer = types.uefi64 }))
            ≡ done uefi_64_name)
        × (firmware_as_string types
              (some (record { response_revision = suc revision; answer = types.sbi }))
            ≡ done sbi_name)
        × (firmware_as_string types none ≡ done no_name))
unfolding firmware_as_string firmware_available name_of_firmware
firmware_as_string-name types revision t a b c d e g =
    let revised : (suc revision == 0) ≡ false = ground arith in
    (ground arith, ground arith, ground arith, ground arith, refl)
