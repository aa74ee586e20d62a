-- ===== src/Examples/Boot.antt =====
-- The start of the kernel, the firmware's functions and the answers of the bootloader at single
-- inputs.
use yerp.Arch.Efi.Services.{
  EfiTables, RuntimeServices, get_time, get_variable, initialize_system_table, no_tables,
  reset_system, reset_warm, set_time, set_variable, set_virtual_address_map, was_reset,
}
use yerp.Arch.Serial.{SerialRegister, init_serial}
use yerp.Boot.{Machine, Texts, start_kernel}
use yerp.Boot.Reached.{start_kernel-written}
use yerp.Boot.Send.{IsResponsive, data_bytes}
use yerp.Limine.{Response}
use yerp.Limine.Tables.{EfiMemmap, efi_system_table_address, system_table_available}
use yerp.Memory.{Memory, Ptr, done, fault, nullptr}
use yerp.Memory.Text.{IsCStr}
use yerp.Pmm.Init.{MemmapResponse}
use yerp.Prelude.{
  inl, Bool-cases, List, Option, [], arith, false, if◌then◌else◌, inr, none, refl, some, true, ℕ,
  ◌%◌, ◌++◌, ◌+◌, ◌==◌, ◌∷◌, ◌≡◌,
}

-- The string "ab" at 100, "\n" at 200.
abbrev texts_memory : Memory
texts_memory a =
    if a == 100
    then some 97
    else (if a == 101
        then some 98
        else (if a == 102
            then some 0
            else (if a == 200 then some 10 else (if a == 201 then some 0 else none))))

abbrev ab : List ℕ
ab = 97 ∷ 98 ∷ []

abbrev line_feed : List ℕ
line_feed = 10 ∷ []

ab_stands : IsCStr texts_memory 100 ab
ab_stands = (refl, omega arith, omega arith, (refl, omega arith, omega arith, refl))

line_feed_stands : IsCStr texts_memory 200 line_feed
line_feed_stands = (refl, omega arith, omega arith, refl)

-- The transmitter is ready at every second read.
abbrev every_second : ℕ → ℕ
every_second k = if k % 2 == 0 then 0 else 32

every_second-IsResponsive : IsResponsive 3 every_second
every_second-IsResponsive k = elim (Bool-cases (k % 2 == 0)) [
  | inl e ↦ let odd : (k + 1) % 2 ≡ 1 = ground arith in (1, omega arith, rw odd)
  | inr e ↦
      let odd : k % 2 ≡ 1 = ground arith in
      let at : k + 0 ≡ k = omega arith in (0, omega arith, rw (at, odd))
]

abbrev powered_on : Machine
powered_on = record {
  com1 = record { polls = 0; written = [] };
  com2 = record { polls = 0; written = [] };
  interrupts = true;
}

abbrev boot_texts : Texts
boot_texts = record { banner = 200; warning = 100 }

abbrev empty_map : MemmapResponse
empty_map = record {
  revision = 1;
  entry_count = 0;
  entries = λ i. record { base = 0; length = 0; entry_type = 0 };
}

-- What `init` writes to a port.
abbrev set_up : Machine → List (SerialRegister × ℕ)
set_up machine = (init_serial 115200 3 machine.com1).written

start_kernel-written_example :
    ((end : Machine) × (start_kernel 3 texts_memory boot_texts every_second every_second
          (some empty_map)
          powered_on
        ≡ done end)
      × (end.interrupts ≡ false)
      × (end.com1.written ≡ set_up powered_on)
      × (end.com2.written ≡ set_up powered_on ++ data_bytes (13 ∷ 10 ∷ [])))
    × ((end : Machine) × (start_kernel 3 texts_memory boot_texts every_second every_second none
            powered_on
          ≡ done end)
        × (end.interrupts ≡ false)
        × (end.com1.written ≡ set_up powered_on ++ data_bytes ab)
        × (end.com2.written ≡ set_up powered_on ++ data_bytes (13 ∷ 10 ∷ [])))
start_kernel-written_example =
    start_kernel-written 3 texts_memory boot_texts every_second every_second empty_map powered_on
      line_feed ab line_feed_stands ab_stands (omega arith) (omega arith) every_second-IsResponsive
      every_second-IsResponsive

-- A firmware that counts its calls, with the status of each function its place in the table.
abbrev counted : ℕ → ℕ → ℕ × ℕ
counted place w = (place, w + 1)

abbrev firmware : RuntimeServices ℕ
firmware = record {
  service_get_time = λ t c w. counted 0 w;
  service_set_time = λ t w. counted 1 w;
  service_get_wakeup_time = λ a b c w. counted 2 w;
  service_set_wakeup_time = λ a b w. counted 3 w;
  service_set_virtual_address_map = λ a b c d w. counted 4 w;
  service_convert_pointer = λ a b w. counted 5 w;
  service_get_variable = λ a b c d e w. counted 6 w;
  service_get_next_variable_name = λ a b c w. counted 7 w;
  service_set_variable = λ a b c d e w. counted 8 w;
  service_reserved = (nullptr, nullptr);
  service_get_next_high_monotonic_count = λ a w. counted 11 w;
  service_reset_system = λ a b c d w. was_reset w;
  service_update_capsule = λ a b c w. counted 13 w;
  service_query_capsule_capabilities = λ a b c d w. counted 14 w;
}

abbrev services_at : Ptr → Option (RuntimeServices ℕ)
services_at p = if p == 7000 then some firmware else none

abbrev table_at : Ptr → Option Ptr
table_at p = if p == 4096 then some 7000 else none

abbrev efi_tables : EfiTables
efi_tables = record { system_table = 4096; runtime_services = 7000 }

tables_run :
    (initialize_system_table
        (some (record { response_revision = 1; answer = 4096 }))
        table_at
        no_tables
      ≡ done (true, efi_tables))
    × (initialize_system_table none table_at no_tables ≡ fault)
unfolding initialize_system_table system_table_available efi_system_table_address
tables_run = (refl, refl)

services_run :
    (set_virtual_address_map services_at efi_tables 96 48 1 5000 7 ≡ done (4, 8))
    × (reset_system services_at efi_tables reset_warm 0 0 nullptr 7 ≡ done 7)
    × (get_time services_at efi_tables 5000 nullptr 7 ≡ done (0, 8))
    × (set_time services_at efi_tables 5000 7 ≡ done (1, 8))
    × (get_variable services_at efi_tables 5000 5100 5200 5300 5400 7 ≡ done (6, 8))
    × (set_variable services_at efi_tables 5000 5100 3 8 5400 7 ≡ done (8, 8))
    × (get_time services_at no_tables 5000 nullptr 7 ≡ fault)
unfolding set_virtual_address_map reset_system get_time set_time get_variable set_variable
services_run = (refl, refl, refl, refl, refl, refl, refl)

abbrev efi_answer : Response EfiMemmap
efi_answer = record {
  response_revision = 1;
  answer = record {
    memmap = 1000;
    memmap_size = 150;
    memmap_desc_size = 48;
    memmap_desc_version = 1;
  };
}

abbrev all_runtime : Ptr → ℕ
all_runtime d = 9223372036854775808
