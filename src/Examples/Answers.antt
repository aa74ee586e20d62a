-- ===== src/Examples/Answers.antt =====
-- The members of `Limine` at single inputs.
use yerp.Ktl.StringView.{StringView, empty_view}
use yerp.Ktl.StringView.Part.{Views}
use yerp.Limine.Files.{
  LimineFile, executable_path, executable_string, file_available, modules_available,
}
use yerp.Limine.Framebuffer.{LimineFramebuffer, as_bytes, framebuffer_available}
use yerp.Limine.Loader.{
  BootloaderInfo, address_available, bootloader_available, bootloader_version, cmdline_available,
  firmware_available,
}
use yerp.Limine.Pixels.{as_bytes-rows}
use yerp.Limine.Tables.{
  boot_time_available, efi_memmap_address, efi_system_table_address, entry32, entry64,
  memmap_available, rsdp_address, rsdp_available, smbios_available, system_table_available,
  timestamp,
}
use yerp.Limine.Texts.{executable_texts-Views}
use yerp.Memory.{Memory, Ptr, done, fault, load, nullptr}
use yerp.Memory.Text.{IsCStr}
use yerp.Prelude.{
  List, Option, [], arith, false, if◌then◌else◌, none, refl, some, ℕ, ◌*◌, ◌+◌, ◌<◌, ◌==◌, ◌∷◌, ◌≡◌,
}
use yerp.Util.Str.{strlen, walk}

-- "ab" at 100 and "ac" at 200.
abbrev names : Memory
names a =
    if a == 100
    then some 97
    else (if a == 101
        then some 98
        else (if a == 102
            then some 0
            else (if a == 200
                then some 97
                else (if a == 201 then some 99 else (if a == 202 then some 0 else none)))))

abbrev ab : List ℕ
ab = 97 ∷ 98 ∷ []

abbrev ac : List ℕ
ac = 97 ∷ 99 ∷ []

ab_stands : IsCStr names 100 ab
ab_stands = (refl, omega arith, omega arith, (refl, omega arith, omega arith, refl))

ac_stands : IsCStr names 200 ac
ac_stands = (refl, omega arith, omega arith, (refl, omega arith, omega arith, refl))

abbrev kernel_file : LimineFile
kernel_file = record { file_path = 100; file_string = 200 }

abbrev files_at : Ptr → Option LimineFile
files_at p = if p == 50 then some kernel_file else none

executable_texts-Views_example :
    ((v w : StringView) × (executable_path 3 names files_at
          (some (record { response_revision = 1; answer = 50 }))
        ≡ done v)
      × (executable_string 3 names files_at (some (record { response_revision = 1; answer = 50 }))
          ≡ done w)
      × Views names v ab
      × Views names w ac)
    × (executable_path 3 names files_at none ≡ done empty_view)
    × (executable_string 3 names files_at none ≡ done empty_view)
    × (executable_path 3 names files_at (some (record { response_revision = 0; answer = 50 }))
        ≡ done empty_view)
    × (executable_string 3 names files_at (some (record { response_revision = 0; answer = 50 }))
        ≡ done empty_view)
    × (executable_path 3 names files_at (some (record { response_revision = 1; answer = nullptr }))
        ≡ done empty_view)
    × (executable_string 3 names files_at
          (some (record { response_revision = 1; answer = nullptr }))
        ≡ done empty_view)
executable_texts-Views_example =
    executable_texts-Views 3 names files_at 0 50 kernel_file ab ac (omega arith) refl ab_stands
      ac_stands (omega arith) (omega arith)

-- The name of the loader is "ab", its version "ac".
abbrev loader : BootloaderInfo
loader = record { loader_name = 100; loader_version = 200 }

bootloader_run :
    bootloader_version 3 names (some (record { response_revision = 1; answer = loader }))
    ≡ done (record { view_data = 200; view_size = 2 })
unfolding bootloader_version bootloader_available strlen walk load
bootloader_run = refl

-- Two rows of four bytes.
abbrev screen : LimineFramebuffer
screen = record {
  fb_address = 9000;
  fb_width = 1;
  fb_height = 2;
  fb_pitch = 4;
  fb_bpp = 32;
  fb_memory_model = 1;
  fb_mode_count = 0;
  fb_modes = 0;
}

abbrev screen_at : Ptr → Option LimineFramebuffer
screen_at p = if p == 60 then some screen else none

as_bytes-rows_example :
    (as_bytes screen_at nullptr ≡ fault)
    × ((first length : ℕ) × (as_bytes screen_at 60 ≡ done (first, length))
        × (first ≡ 9000)
        × ((x y : ℕ) → x < 4 → y < 2 → y * 4 + x < length)
        × ((x y x' y' : ℕ) → x < 4 → x' < 4 → y * 4 + x ≡ y' * 4 + x' → (x ≡ x') × (y ≡ y')))
as_bytes-rows_example = as_bytes-rows screen_at 60 screen refl refl (omega arith)

-- What these members do when the bootloader has not answered.
unanswered_tests :
    (modules_available none ≡ fault)
    × (system_table_available none ≡ fault)
    × (memmap_available none ≡ fault)
    × (rsdp_available none ≡ fault)
    × (smbios_available none ≡ fault)
    × (boot_time_available none ≡ fault)
    × (bootloader_available none ≡ false)
    × (cmdline_available none ≡ false)
    × (firmware_available none ≡ false)
    × (address_available none ≡ false)
    × (framebuffer_available none ≡ false)
    × (file_available none ≡ done false)
unfolding modules_available system_table_available memmap_available rsdp_available smbios_available
    boot_time_available bootloader_available cmdline_available firmware_available address_available
    framebuffer_available file_available
unanswered_tests = (refl, refl, refl, refl, refl, refl, refl, refl, refl, refl, refl, refl)

unanswered_fields :
    (efi_system_table_address none ≡ fault)
    × (efi_memmap_address none ≡ fault)
    × (rsdp_address none ≡ fault)
    × (entry32 none ≡ fault)
    × (entry64 none ≡ fault)
    × (timestamp none ≡ fault)
unfolding efi_system_table_address efi_memmap_address rsdp_address entry32 entry64 timestamp
unanswered_fields = (refl, refl, refl, refl, refl, refl)
