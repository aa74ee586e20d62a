-- ===== src/Arch/Idt/Panic/Report.antt =====
-- What the default handler of kernel/Source/arch/idt.hh reports before it halts the processor.
use yerp.Arch.Idt.Panic.{
  Panic, Registers, default_interrupt_handler, exception_names, kpanic, register_dump,
}
use yerp.Arch.Idt.Panic.Dump.{IsContext, IsImage, dump_texts, register_dump-Shows}
use yerp.Arch.Idt.Panic.Message.{IsMessage, exception-IsMessage, interrupt-IsMessage}
use yerp.Format.Print.{print}
use yerp.Format.Printf.{Arg, printf}
use yerp.Format.Printf.Fields.{crlf, puts-crlf}
use yerp.Memory.{Memory, Ptr, done}
use yerp.Memory.Text.{IsCStr}
use yerp.Prelude.{
  All, Bool, Bool-cases, List, [], arith, get_elem?, inl, inr, length, ltb, ltb→lt, refl, some, suc,
  true, zero, ℕ, ◌&&◌, ◌++◌, ◌<◌, ◌^◌, ◌∷◌, ◌≡◌, ◌≤◌, ◌⊎◌,
}
use yerp.Prelude.Literals.{bytes}

pub All-get_elem? :
    (P : List ℕ → Type 0) (xss : List (List ℕ)) (i : ℕ)
    → All P xss
    → i < length xss
    → (xs : List ℕ) × (get_elem? xss i ≡ some xs) × P xs
All-get_elem? P [] i h lt = absurd (omega arith)
All-get_elem? P (xs ∷ xss) zero h lt = (xs, refl, h.0)
All-get_elem? P (xs ∷ xss) (suc i) h lt = All-get_elem? P xss i h.1 (omega arith)

both_hold :
    (P Q : List ℕ → Type 0) (xss : List (List ℕ))
    → All P xss
    → All Q xss
    → All (λ xs. P xs × Q xs) xss
both_hold P Q [] h h' = tt
both_hold P Q (xs ∷ xss) h h' = ((h.0, h'.0), both_hold P Q xss h.1 h'.1)

abbrev are_short : List (List ℕ) → Bool
are_short [] = true
are_short (xs ∷ xss) = ltb (length xs) 32 && are_short xss

short_names : (xss : List (List ℕ)) → are_short xss ≡ true → All (λ xs. length xs < 32) xss
short_names [] h = tt
short_names (xs ∷ xss) h = (ground arith, short_names xss (ground arith))

-- The other literals of `kpanic` and of the handler.
abbrev pub panic_texts : List (List ℕ)
panic_texts =
    bytes "\u{1b}[31m"
    ∷ bytes "\u{1b}[1m"
    ∷ bytes "\n!!! KERNEL PANIC !!!\n"
    ∷ bytes "\u{1b}[0m"
    ∷ bytes "\nSystem halted.\n"
    ∷ bytes "======== KERNEL PANIC ========\n"
    ∷ bytes "\n\n"
    ∷ bytes "Unhandled CPU Exception {:#02x}: {}"
    ∷ bytes "Unhandled Interrupt Vector {:#02x}"
    ∷ []

-- What the two ports are given when the message and the dump are these.
abbrev pub report : List ℕ → List ℕ → Panic
report message dump = (
  bytes "\u{1b}[31m"
      ++ bytes "\u{1b}[1m"
      ++ crlf (bytes "\n!!! KERNEL PANIC !!!\n")
      ++ bytes "\u{1b}[0m"
      ++ message
      ++ crlf (bytes "\nSystem halted.\n"),
  crlf (bytes "======== KERNEL PANIC ========\n")
      ++ message
      ++ crlf (bytes "\n\n")
      ++ dump
      ++ crlf (bytes "\nSystem halted.\n"),
)

kpanic-report :
    (f : ℕ) (m : Memory) (literal : List ℕ → Ptr) (r : Registers) (fmt : Ptr) (args : List Arg)
    (message dump : List ℕ)
    → IsImage m literal panic_texts
    → 64 ≤ f
    → printf f m fmt args ≡ done message
    → register_dump f m literal r ≡ done dump
    → kpanic f m literal (some r) fmt args ≡ done (report message dump)
unfolding kpanic print
kpanic-report f m literal r fmt args message dump image fuel said dumped =
    let red = puts-crlf f m _ (bytes "\u{1b}[31m") (image.0) (omega arith) in
    let bold = puts-crlf f m _ (bytes "\u{1b}[1m") (image.1.0) (omega arith) in
    let title = puts-crlf f m _ (bytes "\n!!! KERNEL PANIC !!!\n") (image.1.1.0) (omega arith) in
    let reset = puts-crlf f m _ (bytes "\u{1b}[0m") (image.1.1.1.0) (omega arith) in
    let ended = puts-crlf f m _ (bytes "\nSystem halted.\n") (image.1.1.1.1.0) (omega arith) in
    let log_title =
      puts-crlf f m _ (bytes "======== KERNEL PANIC ========\n") (image.1.1.1.1.1.0)
        (omega arith) in
    let blank_lines = puts-crlf f m _ (bytes "\n\n") (image.1.1.1.1.1.1.0) (omega arith) in
    rw (red, bold, title, reset, said, ended, log_title, blank_lines, dumped)

-- The handler runs to the end, when the kernel's literals stand in its image, the registers and
-- the vector are numbers of 64 bits and the fuel is at least 64. Both ports are given the same
-- message: the vector as "0x" and at least two lower case hexadecimal digits that stand for it, and
-- for an exception, a vector below 32, its name. COM2 is given the dump of the registers too.
pub default_interrupt_handler-report :
    (f : ℕ) (m : Memory) (literal : List ℕ → Ptr) (r : Registers)
    → IsImage m literal panic_texts
    → IsImage m literal dump_texts
    → IsImage m literal exception_names
    → IsContext r
    → r.interrupt_vector < 2 ^ 64
    → 64 ≤ f
    → (message dump : List ℕ) × (default_interrupt_handler f m literal r
        ≡ done (report message dump))
      × (register_dump f m literal r ≡ done dump)
      × (((32 ≤ r.interrupt_vector)
            × IsMessage (bytes "Unhandled Interrupt Vector ") r.interrupt_vector [] message)
          ⊎ ((name : List ℕ) × (get_elem? exception_names r.interrupt_vector ≡ some name)
              × IsMessage
                  (bytes "Unhandled CPU Exception ")
                  r.interrupt_vector
                  (bytes ": " ++ crlf name)
                  message))
unfolding default_interrupt_handler exception_names
default_interrupt_handler-report f m literal r panic_image dump_image name_image context small
      fuel =
    let (a, b, c, d, e, g, dumped, _, _, _, _, _, _) =
      register_dump-Shows f m literal r dump_image context fuel in
    elim (Bool-cases (ltb r.interrupt_vector 32)) [
      | inl below ↦
          let (name, found_name, (there, short)) =
            All-get_elem? (λ n. IsCStr m (literal n) n × (length n < 32)) exception_names
              r.interrupt_vector
              (both_hold (λ n. IsCStr m (literal n) n) (λ n. length n < 32) exception_names
                name_image (short_names exception_names refl))
              (ltb→lt r.interrupt_vector 32 below) in
          let (message, said, is_message) =
            exception-IsMessage f m _ (literal name) r.interrupt_vector name
              (panic_image.1.1.1.1.1.1.1.0) there short small fuel in
          (
            message,
            _,
            rw (below, found_name)
                (kpanic-report f m literal r _ _ message _ panic_image fuel said dumped),
            dumped,
            inr (name, found_name, is_message),
          )
      | inr above ↦
          let (message, said, is_message) =
            interrupt-IsMessage f m _ r.interrupt_vector (panic_image.1.1.1.1.1.1.1.1.0) small
              fuel in
          (
            message,
            _,
            rw above (kpanic-report f m literal r _ _ message _ panic_image fuel said dumped),
            dumped,
            inl (ground arith, is_message),
          )
    ]
