-- ===== src/Arch/Gdt.antt =====
-- `GlobalDescriptorTable` of kernel/Source/arch/gdt.hh, without the printed text.
pub mod Tss
pub mod Load
use yerp.Prelude.{List, [], replicate, take, ℕ, ◌%◌, ◌*◌, ◌+◌, ◌-◌, ◌/◌, ◌^◌, ◌∷◌}

pub record GdtEntry : Type 0 where
  pub limit_low : ℕ
  pub base_low : ℕ
  pub base_mid : ℕ
  pub access : ℕ
  pub granularity : ℕ
  pub base_high : ℕ

-- The field `reserved` is 0.
pub record GdtEntry64 : Type 0 where
  pub entry : GdtEntry
  pub base_upper : ℕ

-- `TSS64` without its reserved fields, which stay 0.
pub record Tss64 : Type 0 where
  pub rsp0 : ℕ
  pub rsp1 : ℕ
  pub rsp2 : ℕ
  pub ists : List ℕ
  pub io_map_base : ℕ

-- `sizeof( TSS64 )`: the struct is packed.
abbrev pub tss_size : ℕ
tss_size = 104

unfoldable pub initial_tss : Tss64
initial_tss = record { rsp0 = 0; rsp1 = 0; rsp2 = 0; ists = replicate 7 0; io_map_base = tss_size }

unfoldable pub set_rsp0 : Tss64 → ℕ → Tss64
set_rsp0 t v = record t { rsp0 = v }

-- The seven words from the array are copied.
unfoldable pub set_ists : Tss64 → List ℕ → Tss64
set_ists t words = record t { ists = take 7 words }

abbrev pub segment : ℕ → ℕ → ℕ → GdtEntry
segment limit access granularity = record {
  limit_low = limit;
  base_low = 0;
  base_mid = 0;
  access = access;
  granularity = granularity;
  base_high = 0;
}

-- `gdt_table.entries`: null, kernel code, kernel data, user code, user data.
unfoldable pub gdt_entries : List GdtEntry
gdt_entries =
    segment 0 0 0
    ∷ segment 65535 154 160
    ∷ segment 65535 146 192
    ∷ segment 65535 250 160
    ∷ segment 65535 242 192
    ∷ []

-- `gdt_table.tss_entry` for a TSS at `address`.
unfoldable pub tss_entry : ℕ → GdtEntry64
tss_entry address = record {
  entry = record {
    limit_low = (tss_size - 1) % 2 ^ 16;
    base_low = address % 2 ^ 16;
    base_mid = address / 2 ^ 16 % 2 ^ 8;
    access = 137;
    granularity = address / 2 ^ 16 / 2 ^ 8 % 16;
    base_high = address / 2 ^ 24 % 2 ^ 8;
  };
  base_upper = address / 2 ^ 32 % 2 ^ 32;
}

-- The registers that `load` writes: the two fields of what `lgdt` loads, the segment registers and
-- the task register.
pub record Segments : Type 0 where
  pub gdtr_limit : ℕ
  pub gdtr_base : ℕ
  pub cs : ℕ
  pub ds : ℕ
  pub es : ℕ
  pub fs : ℕ
  pub gs : ℕ
  pub ss : ℕ
  pub tr : ℕ

-- `sizeof( gdt_table )`: 56 bytes, rounded up to the alignment 16.
abbrev pub gdt_table_size : ℕ
gdt_table_size = (5 * 8 + 16 + 15) / 16 * 16

-- The inline assembly of `load`, with the table at `address`; `lretq` loads the code segment.
unfoldable pub load_gdt : ℕ → Segments → Segments
load_gdt address cpu =
    let loaded = record cpu { gdtr_limit = (gdt_table_size - 1) % 2 ^ 16; gdtr_base = address } in
    let data_set = record loaded { ds = 16; es = 16; fs = 16; gs = 16 } in
    record data_set { cs = 8; tr = 40 }
