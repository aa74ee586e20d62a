-- ===== src/Arch/Idt.antt =====
-- `InterruptDescriptorTable` of kernel/Source/arch/idt.hh, with the branches that
-- kernel/Source/constants.h turns on: trap gates for exceptions, and a panic on an exception. The
-- address of the table and `isr_stub_table` are arguments. The text that `init` prints is left
-- out.
pub mod Init
pub mod Handlers
pub mod Panic
use yerp.Memory.{Outcome, done, fault}
use yerp.Prelude.{
  Bool, List, Option, false, get_elem?, if◌then◌else◌, none, set, some, suc, true, zero, ℕ, ◌%◌,
  ◌*◌, ◌+◌, ◌-◌, ◌/◌, ◌^◌,
}

-- What an entry of `real_handler_table` points to: nothing, `defaultInterruptHandler`,
-- `haltCatchFire`, or a function of the given number.
pub data Handler : Type 0 where
  no_handler : Handler
  default_handler : Handler
  halt_handler : Handler
  custom_handler : ℕ → Handler

pub record Gate : Type 0 where
  pub offset_low : ℕ
  pub selector : ℕ
  pub ist : ℕ
  pub gate_attribute : ℕ
  pub offset_mid : ℕ
  pub offset_high : ℕ
  pub reserved_zero : ℕ

-- `idt_table`, `real_handler_table`, `idt_ptr`, and what `lidt` has loaded.
pub record Idt : Type 0 where
  pub idt_table : List Gate
  pub handler_table : List Handler
  pub idt_limit : ℕ
  pub idt_base : ℕ
  pub cpu_idt : Option (ℕ × ℕ)

abbrev pub interrupt_gate : ℕ
interrupt_gate = 142

abbrev pub trap_gate : ℕ
trap_gate = 143

-- What `setGate` writes.
unfoldable pub gate_of : ℕ → ℕ → Gate
gate_of base flags = record {
  offset_low = base % 2 ^ 16;
  selector = 8;
  ist = 0;
  gate_attribute = flags;
  offset_mid = base / 2 ^ 16 % 2 ^ 16;
  offset_high = base / 2 ^ 32 % 2 ^ 32;
  reserved_zero = 0;
}

unfoldable pub set_gate : Idt → ℕ → ℕ → ℕ → Idt
set_gate s vec base flags = record s { idt_table = set s.idt_table vec (gate_of base flags) }

-- One of the two loops of `init`, `n` vectors from `vec` on.
unfoldable pub init_vectors : (ℕ → ℕ) → ℕ → ℕ → ℕ → Idt → Idt
init_vectors stubs flags zero vec s = s
init_vectors stubs flags (suc n) vec s =
    let s' = set_gate s vec (stubs vec) flags in
    init_vectors stubs flags n (vec + 1)
      (record s' { handler_table = set s'.handler_table vec default_handler })

unfoldable pub load_idt : Idt → Idt
load_idt s = record s { cpu_idt = some (s.idt_limit, s.idt_base) }

-- The table has 256 entries of 16 bytes.
unfoldable pub init_idt : ℕ → (ℕ → ℕ) → Idt → Idt
init_idt address stubs s =
    let s1 = record s { idt_limit = (256 * 16 - 1) % 2 ^ 16; idt_base = address } in
    let s2 = init_vectors stubs trap_gate 32 0 s1 in
    load_idt (init_vectors stubs interrupt_gate 224 32 s2)

abbrev pub is_default : Handler → Bool
is_default no_handler = false
is_default default_handler = true
is_default halt_handler = true
is_default (custom_handler n) = false

-- An access behind the end of `real_handler_table` is a fault.
unfoldable pub register_handler : Idt → ℕ → Handler → Outcome (Bool × Idt)
register_handler s vector h = elim (get_elem? s.handler_table vector) [
  | none ↦ fault
  | some old ↦
      if is_default old
      then done (true, record s { handler_table = set s.handler_table vector h })
      else done (false, s)
]
