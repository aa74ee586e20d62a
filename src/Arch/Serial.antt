-- ===== src/Arch/Serial.antt =====
-- `Serial` of kernel/Source/arch/serial.hh. The port is given by what it is read: `status k` is
-- what the `k`th read of the line status register yields and `data_at k` what the data register
-- holds after `k` such reads. The bytes that are written are kept in order, each with its register.
pub mod Wait
use yerp.Memory.{Outcome, done, out_of_fuel, ◌>>=◌}
use yerp.Prelude.{
  Bool, List, [], if◌then◌else◌, not, suc, zero, ℕ, ◌%◌, ◌++◌, ◌+◌, ◌/◌, ◌==◌, ◌^◌, ◌∷◌,
}
use yerp.Prelude.Int.{to_char, to_uchar, ℤ}
use yerp.Prelude.Literals.{bytes}

pub data SerialRegister : Type 0 where
  data_register : SerialRegister
  ier : SerialRegister
  fcr : SerialRegister
  lcr : SerialRegister
  mcr : SerialRegister
  lsr : SerialRegister
  msr : SerialRegister
  scr : SerialRegister

pub record Line : Type 0 where
  pub polls : ℕ
  pub written : List (SerialRegister × ℕ)

-- `io::out<u8>( PORT_BASE + reg, byte )`
abbrev pub out_byte : SerialRegister → ℕ → Line → Line
out_byte reg byte s = record s { written = s.written ++ (reg, byte) ∷ [] }

-- A read of the line status register, and whether its bit number `bit` is set.
abbrev pub poll : ℕ → (ℕ → ℕ) → Line → Bool × Line
poll bit status s = (not (status s.polls / 2 ^ bit % 2 == 0), record s { polls = s.polls + 1 })

unfoldable pub tx_ready : (ℕ → ℕ) → Line → Bool × Line
tx_ready status s = poll 5 status s

unfoldable pub rx_ready : (ℕ → ℕ) → Line → Bool × Line
rx_ready status s = poll 0 status s

-- `while ( !ready() ) { }`
unfoldable pub wait_until : ℕ → (Line → Bool × Line) → Line → Outcome Line
wait_until zero ready s = out_of_fuel
wait_until (suc f) ready s =
    let (is_ready, s') = ready s in if is_ready then done s' else wait_until f ready s'

unfoldable pub serial_put : ℕ → (ℕ → ℕ) → Line → ℤ → Outcome Line
serial_put f status s c = do
  s' ← wait_until f (tx_ready status) s
  done (out_byte data_register (to_uchar c) s')

unfoldable pub serial_get : ℕ → (ℕ → ℕ) → (ℕ → ℕ) → Line → Outcome (ℤ × Line)
serial_get f status data_at s = do
  s' ← wait_until f (rx_ready status) s
  done (to_char (data_at s'.polls), s')

unfoldable pub flush : ℕ → (ℕ → ℕ) → Line → Outcome Line
flush f status s = wait_until f (tx_ready status) s

-- `baud` divides 115200.
unfoldable pub init_serial : ℕ → ℕ → Line → Line
init_serial baud ilcr s =
    let divisor = 115200 / baud % 2 ^ 16 in
    let s1 = out_byte lcr 128 (out_byte ier 0 s) in
    let s2 = out_byte ier (divisor / 2 ^ 8 % 2 ^ 8) (out_byte data_register (divisor % 256) s1) in
    out_byte mcr 11 (out_byte fcr 199 (out_byte lcr ilcr s2))

-- `port_name`, by the template's argument PORT_BASE.
unfoldable pub port_name : ℕ → List ℕ
port_name port_base =
    if port_base == 1016
    then bytes "COM1"
    else (if port_base == 760
        then bytes "COM2"
        else (if port_base == 1000
            then bytes "COM3"
            else (if port_base == 744 then bytes "COM4" else bytes "COM?")))
