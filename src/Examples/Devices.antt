-- ===== src/Examples/Devices.antt =====
-- The descriptor tables, the EFI memory map and the serial port at single inputs.
use yerp.Arch.Efi.{
  EfiMap, advance, advance_to_next, descriptor_at, efi_entry_count, is_runtime, iterator_next,
  iterator_valid,
}
use yerp.Arch.Efi.Iterator.{visit}
use yerp.Arch.Gdt.{Segments, gdt_entries, tss_entry, tss_size}
use yerp.Arch.Gdt.Tss.{entry_base, entry_limit, is_code, is_present, privilege, tss_entry-decoded}
use yerp.Arch.Idt.{
  Gate, Handler, Idt, custom_handler, default_handler, init_idt, no_handler, register_handler,
}
use yerp.Arch.Idt.Handlers.{register_handler-once}
use yerp.Arch.Idt.Init.{flags_of, gate_address, init_idt-gates}
use yerp.Arch.Serial.{Line, data_register, fcr, ier, init_serial, lcr, mcr}
use yerp.Memory.{Ptr, done, fault}
use yerp.Prelude.{
  [], arith, drop, false, get_elem?, if◌then◌else◌, length-replicate, ltb, map, none, refl,
  replicate, some, true, ℕ, ◌%◌, ◌*◌, ◌+◌, ◌-◌, ◌/◌, ◌<◌, ◌==◌, ◌^◌, ◌↔◌, ◌∷◌, ◌≡◌, ◌≢◌,
}

-- Tables without a gate and without a handler.
abbrev no_gate : Gate
no_gate = record {
  offset_low = 0;
  selector = 0;
  ist = 0;
  gate_attribute = 0;
  offset_mid = 0;
  offset_high = 0;
  reserved_zero = 0;
}

abbrev reset : Idt
reset = record {
  idt_table = replicate 256 no_gate;
  handler_table = replicate 256 no_handler;
  idt_limit = 0;
  idt_base = 0;
  cpu_idt = none;
}

-- The stubs stand 16 bytes apart in the higher half.
abbrev stubs : ℕ → ℕ
stubs vec = (18446744071562067968 + 16 * vec) % 2 ^ 64

init_idt-gates_example :
    ((init_idt 8192 stubs reset).cpu_idt ≡ some (4095, 8192))
    × ((vec : ℕ)
        → vec < 256
        → (g : Gate) × (get_elem? (init_idt 8192 stubs reset).idt_table vec ≡ some g)
          × (gate_address g ≡ stubs vec)
          × (g.selector ≡ 8)
          × (g.gate_attribute ≡ flags_of vec)
          × (get_elem? (init_idt 8192 stubs reset).handler_table vec ≡ some default_handler))
init_idt-gates_example =
    init_idt-gates 8192 stubs reset (length-replicate 256 no_gate, length-replicate 256 no_handler)
      (λ vec. omega arith)

-- One vector with a default handler, and one without.
abbrev two_handlers : Idt
two_handlers = record reset { handler_table = no_handler ∷ default_handler ∷ [] }

register_handler-once_example :
    (s' : Idt) × (register_handler two_handlers 1 (custom_handler 5) ≡ done (true, s'))
    × (get_elem? s'.handler_table 1 ≡ some (custom_handler 5))
    × ((v : ℕ) → 1 ≢ v → get_elem? s'.handler_table v ≡ get_elem? two_handlers.handler_table v)
    × (s'.idt_table ≡ two_handlers.idt_table)
    × ((h : Handler) → register_handler s' 1 h ≡ done (false, s'))
register_handler-once_example = register_handler-once two_handlers 1 5 default_handler refl refl

-- A vector that the table does not have, of the 65536 that the argument can name.
register_handler_behind : register_handler two_handlers 256 (custom_handler 5) ≡ fault
unfolding register_handler
register_handler_behind = refl

tss_entry-decoded_example :
    (entry_base (tss_entry 16781312).entry + (tss_entry 16781312).base_upper * 2 ^ 32 ≡ 16781312)
    × (is_present (tss_entry 16781312).entry ≡ true)
    × (privilege (tss_entry 16781312).entry ≡ 0)
    × (entry_limit (tss_entry 16781312).entry ≡ tss_size - 1 + 16781312 / 2 ^ 24 % 16 * 2 ^ 16)
    × ((entry_limit (tss_entry 16781312).entry ≡ tss_size - 1) ↔ (16781312 / 2 ^ 24 % 16 ≡ 0))
tss_entry-decoded_example = tss_entry-decoded 16781312 (omega arith)

-- The limit of this descriptor is 65639, not 103.
tss_limit : entry_limit (tss_entry 16781312).entry ≡ 65639
unfolding tss_entry
tss_limit = refl

-- The selectors 0x08, 0x10, 0x18 and 0x20: code and data at the level 0, and at the level 3.
segments :
    (map privilege (drop 1 gdt_entries) ≡ 0 ∷ 0 ∷ 3 ∷ 3 ∷ [])
    × (map is_code (drop 1 gdt_entries) ≡ true ∷ false ∷ true ∷ false ∷ [])
    × (map is_present gdt_entries ≡ false ∷ true ∷ true ∷ true ∷ true ∷ [])
unfolding gdt_entries
segments = (refl, refl, refl)

-- Three descriptors of 48 bytes from 1000 on; the second and the third are for the run time.
abbrev three : EfiMap
three = record { map_base = 1000; total_size = 150; desc_size = 48; desc_version = 1 }

abbrev attributes : Ptr → ℕ
attributes d = if d == 1000 then 15 else 9223372036854775823

three_entries : efi_entry_count three < 4
unfolding efi_entry_count
three_entries = omega arith

visit_run : visit 4 attributes three 1 ≡ done (some 1048 ∷ some 1096 ∷ [])
unfolding visit iterator_valid iterator_next advance_to_next advance descriptor_at is_runtime
    efi_entry_count
visit_run = refl

-- The transmitter is ready at the third read.
abbrev busy_twice : ℕ → ℕ
busy_twice k = if ltb k 2 then 0 else 32

abbrev idle_line : Line
idle_line = record { polls = 0; written = [] }

-- COM1 at 115200 baud.
init_run :
    (init_serial 115200 3 idle_line).written
    ≡ (ier, 0) ∷ (lcr, 128) ∷ (data_register, 1) ∷ (ier, 0) ∷ (lcr, 3) ∷ (fcr, 199) ∷ (mcr, 11) ∷ []
unfolding init_serial
init_run = refl

abbrev reset_segments : Segments
reset_segments = record {
  gdtr_limit = 0;
  gdtr_base = 0;
  cs = 40;
  ds = 48;
  es = 48;
  fs = 48;
  gs = 48;
  ss = 48;
  tr = 0;
}

-- Registers that hold two halves.
abbrev write_halves : ℕ → ℕ → ℕ → (ℕ → ℕ × ℕ) → ℕ → ℕ × ℕ
write_halves c low high w j = if c == j then (low, high) else w j

abbrev read_halves : ℕ → (ℕ → ℕ × ℕ) → ℕ × ℕ
read_halves c w = w c
