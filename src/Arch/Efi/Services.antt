-- ===== src/Arch/Efi/Services.antt =====
-- The system table and the runtime services of `Efi` of kernel/Source/arch/efi.hh. The firmware's
-- functions are parameters: `Firmware` is the state that they read and change, the memory that
-- their pointer arguments lead to with it. Arguments of 16 and 32 bits are the numbers that the
-- caller passes.
use yerp.Limine.{Request, follow}
use yerp.Limine.Tables.{efi_system_table_address, system_table_available}
use yerp.Memory.{Outcome, Ptr, done, fault, nullptr, ◌>>=◌}
use yerp.Prelude.{Bool, Option, false, if◌then◌else◌, not, true, ℕ}

pub data ResetType : Type 0 where
  reset_cold : ResetType
  reset_warm : ResetType
  reset_shutdown : ResetType
  reset_platform_specific : ResetType

-- `static_cast<u32>( Type )`
abbrev pub reset_number : ResetType → ℕ
reset_number reset_cold = 0
reset_number reset_warm = 1
reset_number reset_shutdown = 2
reset_number reset_platform_specific = 3

module _ (Firmware : Type 0) where
  -- What a function of the firmware does: its status and the state behind it.
  abbrev pub Service : Type 0
  Service = Firmware → ℕ × Firmware

  -- The machine is reset, or the firmware's function has returned.
  pub data Reset : Type 0 where
    was_reset : Firmware → Reset
    has_returned : ℕ → Firmware → Reset

  -- `RuntimeServices` without its header, the fields in the order of the source. `service_reserved`
  -- is `Reserved[2]`: what stands behind it lies two words further on than the functions alone take.
  pub record RuntimeServices : Type 0 where
    pub service_get_time : Ptr → Ptr → Service
    pub service_set_time : Ptr → Service
    pub service_get_wakeup_time : Ptr → Ptr → Ptr → Service
    pub service_set_wakeup_time : Bool → Ptr → Service
    pub service_set_virtual_address_map : ℕ → ℕ → ℕ → Ptr → Service
    pub service_convert_pointer : ℕ → Ptr → Service
    pub service_get_variable : Ptr → Ptr → Ptr → Ptr → Ptr → Service
    pub service_get_next_variable_name : Ptr → Ptr → Ptr → Service
    pub service_set_variable : Ptr → Ptr → ℕ → ℕ → Ptr → Service
    pub service_reserved : Ptr × Ptr
    pub service_get_next_high_monotonic_count : Ptr → Service
    pub service_reset_system : ℕ → ℕ → ℕ → Ptr → Firmware → Reset
    pub service_update_capsule : Ptr → ℕ → ℕ → Service
    pub service_query_capsule_capabilities : Ptr → ℕ → Ptr → Ptr → Service

-- The end of `ResetSystem`: `__builtin_unreachable()` stands behind the call.
abbrev pub unreachable_behind : {Firmware : Type 0} → Reset Firmware → Outcome Firmware
unreachable_behind (was_reset w) = done w
unreachable_behind (has_returned status w) = fault

-- `ST` and `RS`.
pub record EfiTables : Type 0 where
  pub system_table : Ptr
  pub runtime_services : Ptr

abbrev pub no_tables : EfiTables
no_tables = record { system_table = nullptr; runtime_services = nullptr }

-- `table` gives the field `RuntimeServices` of the system table at an address.
unfoldable pub initialize_system_table :
    Request ℕ → (Ptr → Option Ptr) → EfiTables → Outcome (Bool × EfiTables)
initialize_system_table request table s = do
  available ← system_table_available request
  if not available then done (false, s) else (do
    address ← efi_system_table_address request
    services ← follow (table address)
    done (true, record { system_table = address; runtime_services = services }))

-- The wrappers; `services` gives the table of functions at an address.
module _ {Firmware : Type 0} (services : Ptr → Option (RuntimeServices Firmware)) where
  unfoldable pub set_virtual_address_map :
      EfiTables → ℕ → ℕ → ℕ → Ptr → Firmware → Outcome (ℕ × Firmware)
  set_virtual_address_map s map_size size version virtual w = do
    rs ← follow (services s.runtime_services)
    done (rs.service_set_virtual_address_map map_size size version virtual w)

  unfoldable pub reset_system : EfiTables → ResetType → ℕ → ℕ → Ptr → Firmware → Outcome Firmware
  reset_system s type status data_size reset_data w = do
    rs ← follow (services s.runtime_services)
    unreachable_behind (rs.service_reset_system (reset_number type) status data_size reset_data w)

  unfoldable pub get_time : EfiTables → Ptr → Ptr → Firmware → Outcome (ℕ × Firmware)
  get_time s out_time out_capabilities w = do
    rs ← follow (services s.runtime_services)
    done (rs.service_get_time out_time out_capabilities w)

  unfoldable pub set_time : EfiTables → Ptr → Firmware → Outcome (ℕ × Firmware)
  set_time s in_time w = do
    rs ← follow (services s.runtime_services)
    done (rs.service_set_time in_time w)

  unfoldable pub get_variable :
      EfiTables → Ptr → Ptr → Ptr → Ptr → Ptr → Firmware → Outcome (ℕ × Firmware)
  get_variable s name guid attributes data_size data_at w = do
    rs ← follow (services s.runtime_services)
    done (rs.service_get_variable name guid attributes data_size data_at w)

  unfoldable pub set_variable :
      EfiTables → Ptr → Ptr → ℕ → ℕ → Ptr → Firmware → Outcome (ℕ × Firmware)
  set_variable s name guid attributes data_size data_at w = do
    rs ← follow (services s.runtime_services)
    done (rs.service_set_variable name guid attributes data_size data_at w)
