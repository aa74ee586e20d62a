-- ===== src/Arch/Io.antt =====
-- `io` of kernel/Source/arch/io.hh. The instructions are parameters: they act on the state of the
-- machine.
use yerp.Prelude.{
  Option, arith, if◌then◌else◌, leb, none, some, ℕ, ◌%◌, ◌*◌, ◌+◌, ◌/◌, ◌<◌, ◌==◌, ◌^◌, ◌≡◌, ◌≢◌,
  ◌≤◌,
}

-- `msr`: `wrmsr` takes the number of the register and the two halves of the value, and `rdmsr`
-- yields the halves, the lower one first.
module _ {Machine : Type 0} (wrmsr : ℕ → ℕ → ℕ → Machine → Machine)
    (rdmsr : ℕ → Machine → ℕ × ℕ) where
  unfoldable pub write_msr : ℕ → ℕ → Machine → Machine
  write_msr number value w = wrmsr number (value % 2 ^ 32) (value / 2 ^ 32 % 2 ^ 32) w

  unfoldable pub read_msr : ℕ → Machine → ℕ
  read_msr number w = let (low, high) = rdmsr number w in high * 2 ^ 32 + low

  -- When `rdmsr` yields the halves that `wrmsr` has been given, `read` yields the 64-bit value that
  -- `write` has been given.
  pub read_msr-write_msr :
      (number value : ℕ) (w : Machine)
      → ((c low high : ℕ) (v : Machine)
          → low < 2 ^ 32
          → high < 2 ^ 32
          → rdmsr c (wrmsr c low high v) ≡ (low, high))
      → value < 2 ^ 64
      → read_msr number (write_msr number value w) ≡ value
  unfolding read_msr write_msr
  read_msr-write_msr number value w law word =
      let halves =
        law number (value % 2 ^ 32) (value / 2 ^ 32 % 2 ^ 32) w (omega arith) (omega arith) in
      rw halves (omega arith)

-- `out<T>` and `in<T>` by `sizeof( T )`: the instruction of the size takes the value and the port.
-- `none` is what the `static_assert` rejects.
module _ (Machine : Type 0) where
  pub record PortInstructions : Type 0 where
    pub outb : ℕ → ℕ → Machine → Machine
    pub outw : ℕ → ℕ → Machine → Machine
    pub outl : ℕ → ℕ → Machine → Machine
    pub outq : ℕ → ℕ → Machine → Machine
    pub inb : ℕ → Machine → ℕ × Machine
    pub inw : ℕ → Machine → ℕ × Machine
    pub inl : ℕ → Machine → ℕ × Machine
    pub inq : ℕ → Machine → ℕ × Machine

module _ {Machine : Type 0} where
  unfoldable pub port_out : PortInstructions Machine → ℕ → ℕ → ℕ → Machine → Option Machine
  port_out io size port value w =
      if size == 1
      then some (io.outb value port w)
      else (if size == 2
          then some (io.outw value port w)
          else (if size == 4
              then some (io.outl value port w)
              else (if size == 8
                  then some (io.outq value port w)
                  else (if leb size 8 then some w else none))))

  -- `T value{}` is what an operand without an instruction leaves.
  unfoldable pub port_in : PortInstructions Machine → ℕ → ℕ → Machine → Option (ℕ × Machine)
  port_in io size port w =
      if size == 1
      then some (io.inb port w)
      else (if size == 2
          then some (io.inw port w)
          else (if size == 4
              then some (io.inl port w)
              else (if size == 8
                  then some (io.inq port w)
                  else (if leb size 8 then some (0, w) else none))))

  -- Operands of more than 8 bytes are rejected. Operands of 3, 5, 6 and 7 bytes are accepted, and
  -- no instruction is executed for them: `out` does nothing and `in` yields the value zero.
  pub port_out-odd_size :
      (io : PortInstructions Machine) (size port value : ℕ) (w : Machine)
      → size ≢ 1
      → size ≢ 2
      → size ≢ 4
      → size ≢ 8
      → (8 < size → (port_out io size port value w ≡ none) × (port_in io size port w ≡ none))
        × (size ≤ 8
            → (port_out io size port value w ≡ some w) × (port_in io size port w ≡ some (0, w)))
  unfolding port_out port_in
  port_out-odd_size io size port value w a b c d =
      ((λ big. (ground arith, ground arith)), (λ small. (ground arith, ground arith)))
