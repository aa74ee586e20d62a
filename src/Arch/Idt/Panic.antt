-- ===== src/Arch/Idt/Panic.antt =====
-- `kpanic` and the default handlers of kernel/Source/arch/idt.hh: what is printed before the
-- processor is halted. `literal` gives the address of a string literal in the kernel's image.
pub mod Dump
pub mod Message
pub mod Report
use yerp.Boot.{Machine}
use yerp.Format.Print.{c_string, print}
use yerp.Format.Printf.{Arg, printf, value}
use yerp.Format.Printf.Words.{word}
use yerp.Memory.{Memory, Outcome, Ptr, done, fault, ◌>>=◌}
use yerp.Pmm.{halted}
use yerp.Prelude.{List, Option, [], get_elem?, if◌then◌else◌, ltb, none, some, ℕ, ◌++◌, ◌∷◌}
use yerp.Prelude.Literals.{bytes}

-- `registers_ctx`
pub record Registers : Type 0 where
  pub saved_es : ℕ
  pub saved_ds : ℕ
  pub cr4 : ℕ
  pub cr3 : ℕ
  pub cr2 : ℕ
  pub cr0 : ℕ
  pub r15 : ℕ
  pub r14 : ℕ
  pub r13 : ℕ
  pub r12 : ℕ
  pub r11 : ℕ
  pub r10 : ℕ
  pub r9 : ℕ
  pub r8 : ℕ
  pub rax : ℕ
  pub rbx : ℕ
  pub rcx : ℕ
  pub rdx : ℕ
  pub rsi : ℕ
  pub rdi : ℕ
  pub rbp : ℕ
  pub interrupt_vector : ℕ
  pub error_code : ℕ
  pub rip : ℕ
  pub saved_cs : ℕ
  pub rflags : ℕ
  pub rsp : ℕ
  pub saved_ss : ℕ

unfoldable pub exception_names : List (List ℕ)
exception_names =
    bytes "Divide-by-zero Error"
    ∷ bytes "Debug"
    ∷ bytes "Non-maskable Interrupt"
    ∷ bytes "Breakpoint"
    ∷ bytes "Overflow"
    ∷ bytes "Bound Range Exceeded"
    ∷ bytes "Invalid Opcode"
    ∷ bytes "Device Not Available"
    ∷ bytes "Double Fault"
    ∷ bytes "Coprocessor Segment Overrun"
    ∷ bytes "Invalid TSS"
    ∷ bytes "Segment Not Present"
    ∷ bytes "Stack Segment Fault"
    ∷ bytes "General Protection Fault"
    ∷ bytes "Page Fault"
    ∷ bytes "Reserved"
    ∷ bytes "x87 Floating-Point Exception"
    ∷ bytes "Alignment Check"
    ∷ bytes "Machine Check"
    ∷ bytes "SIMD Floating-Point Exception"
    ∷ bytes "Virtualization Exception"
    ∷ bytes "Control Protection Exception"
    ∷ bytes "Reserved"
    ∷ bytes "Reserved"
    ∷ bytes "Reserved"
    ∷ bytes "Reserved"
    ∷ bytes "Reserved"
    ∷ bytes "Reserved"
    ∷ bytes "Hypervisor Injection Exception"
    ∷ bytes "VMM Communication Exception"
    ∷ bytes "Security Exception"
    ∷ bytes "Reserved"
    ∷ []

-- The characters put on COM1 and on COM2 before `haltCatchFire`, which turns the interrupts off and
-- halts for ever.
abbrev pub Panic : Type 0
Panic = List ℕ × List ℕ

module _ (f : ℕ) (m : Memory) (literal : List ℕ → Ptr) where
  -- `print( "…" )`
  abbrev pub print_literal : List ℕ → Outcome (List ℕ)
  print_literal text = print f m (c_string (literal text))

  -- The lines behind `if ( ctx )`.
  unfoldable pub register_dump : Registers → Outcome (List ℕ)
  register_dump r = do
    title ← print_literal (bytes "Register dump:\n")
    general ←
        printf f m (literal (bytes "RAX={:#016x} RBX={:#016x} RCX={:#016x} RDX={:#016x}\n"))
          (word r.rax ∷ word r.rbx ∷ word r.rcx ∷ word r.rdx ∷ [])
    pointers ←
        printf f m (literal (bytes "RSI={:#016x} RDI={:#016x} RBP={:#016x} RSP={:#016x}\n"))
          (word r.rsi ∷ word r.rdi ∷ word r.rbp ∷ word r.rsp ∷ [])
    extra_low ←
        printf f m (literal (bytes "R8 ={:#016x} R9 ={:#016x} R10={:#016x} R11={:#016x}\n"))
          (word r.r8 ∷ word r.r9 ∷ word r.r10 ∷ word r.r11 ∷ [])
    extra_high ←
        printf f m (literal (bytes "R12={:#016x} R13={:#016x} R14={:#016x} R15={:#016x}\n"))
          (word r.r12 ∷ word r.r13 ∷ word r.r14 ∷ word r.r15 ∷ [])
    flags ←
        printf f m (literal (bytes "RIP={:#016x} RFLAGS={:#016x}\n"))
          (word r.rip ∷ word r.rflags ∷ [])
    segments ←
        printf f m (literal (bytes "CS ={:#04x} SS={:#04x}\n"))
          (word r.saved_cs ∷ word r.saved_ss ∷ [])
    done (title ++ general ++ pointers ++ extra_low ++ extra_high ++ flags ++ segments)

  -- A null `ctx` is `none`.
  unfoldable pub kpanic : Option Registers → Ptr → List Arg → Outcome Panic
  unfolding register_dump
  kpanic ctx fmt args = do
    red ← print_literal (bytes "\u{1b}[31m")
    bold ← print_literal (bytes "\u{1b}[1m")
    title ← print_literal (bytes "\n!!! KERNEL PANIC !!!\n")
    reset ← print_literal (bytes "\u{1b}[0m")
    message ← printf f m fmt args
    halted_text ← print_literal (bytes "\nSystem halted.\n")
    log_title ← print_literal (bytes "======== KERNEL PANIC ========\n")
    log_message ← printf f m fmt args
    blank_lines ← print_literal (bytes "\n\n")
    dump ← elim ctx [ none ↦ done [] | some r ↦ register_dump r ]
    done (
      red ++ bold ++ title ++ reset ++ message ++ halted_text,
      log_title ++ log_message ++ blank_lines ++ dump ++ halted_text,
    )

  unfoldable pub default_interrupt_handler : Registers → Outcome Panic
  unfolding kpanic exception_names
  default_interrupt_handler r =
      if ltb r.interrupt_vector 32
      then (elim (get_elem? exception_names r.interrupt_vector) [
        | none ↦ fault
        | some name ↦
            kpanic (some r) (literal (bytes "Unhandled CPU Exception {:#02x}: {}"))
              (word r.interrupt_vector ∷ value (c_string (literal name)) ∷ [])
      ])
      else kpanic (some r) (literal (bytes "Unhandled Interrupt Vector {:#02x}"))
          (word r.interrupt_vector ∷ [])
