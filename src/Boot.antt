-- ===== src/Boot.antt =====
-- `_start` of kernel/Source/core/_start.cc: what the kernel does when the bootloader enters it. The
-- two texts stand in memory, at the addresses that `Texts` names. `SerialCOM1` and `SerialCOM2`
-- have the default parameters of `Serial`.
pub mod Send
pub mod Reached
use yerp.Arch.Serial.{Line, init_serial}
use yerp.Boot.Send.{print_to, printf_to}
use yerp.Format.Print.{c_string}
use yerp.Memory.{Memory, Outcome, Ptr, done, ◌>>=◌}
use yerp.Pmm.Init.{MemoryMap}
use yerp.Prelude.{Bool, [], false, none, some, ℕ}

pub record Texts : Type 0 where
  pub banner : Ptr
  pub warning : Ptr

-- The two ports, and whether the processor takes interrupts.
pub record Machine : Type 0 where
  pub com1 : Line
  pub com2 : Line
  pub interrupts : Bool

-- What has happened when `hlt` is reached for the first time; it is repeated without an end.
unfoldable pub start_kernel :
    ℕ → Memory → Texts → (ℕ → ℕ) → (ℕ → ℕ) → MemoryMap → Machine → Outcome Machine
start_kernel f m texts status1 status2 request machine =
    let line1 = init_serial 115200 3 machine.com1 in
    let line2 = init_serial 115200 3 machine.com2 in
    do
      line2' ← print_to f m status2 line2 (c_string texts.banner)
      line1' ← elim request [
        | none ↦ printf_to f m status1 line1 texts.warning []
        | some r ↦ done line1
      ]
      done (record { com1 = line1'; com2 = line2'; interrupts = false })
