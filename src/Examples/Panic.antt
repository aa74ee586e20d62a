-- ===== src/Examples/Panic.antt =====
-- The report of the default interrupt handler at single inputs.
use yerp.Arch.Idt.Panic.{Registers, default_interrupt_handler, exception_names, register_dump}
use yerp.Arch.Idt.Panic.Dump.{
  IsContext, IsImage, dump_texts, flag_fields, general_fields, high_fields, low_fields, newline,
  pointer_fields, register_dump-Shows, segment_fields,
}
use yerp.Arch.Idt.Panic.Message.{IsMessage}
use yerp.Arch.Idt.Panic.Report.{default_interrupt_handler-report, panic_texts, report}
use yerp.Format.Printf.Fields.{crlf}
use yerp.Format.Printf.Words.{Shows}
use yerp.Memory.{Memory, Ptr, done}
use yerp.Memory.Text.{IsCStr}
use yerp.Prelude.{
  Bool, List, [], ap, arith, get_elem?, ltb, refl, some, true, ℕ, ◌%◌, ◌&&◌, ◌*◌, ◌++◌, ◌+◌, ◌/◌,
  ◌==◌, ◌^◌, ◌∷◌, ◌≡◌, ◌≤◌, ◌⊎◌,
}
use yerp.Prelude.Literals.{bytes}

-- A literal stands at 1024 times the number that its bytes make up.
abbrev number_of : List ℕ → ℕ
number_of [] = 0
number_of (x ∷ xs) = x + 256 * number_of xs

abbrev place_of : List ℕ → Ptr
place_of xs = number_of xs * 1024

abbrev image : Memory
image a = some (a / 1024 / 256 ^ (a % 1024) % 256)

-- Whether a string stands in the image.
abbrev stands : Ptr → List ℕ → Bool
stands p [] = p / 1024 / 256 ^ (p % 1024) % 256 == 0
stands p (x ∷ xs) =
    (p / 1024 / 256 ^ (p % 1024) % 256 == x) && (ltb 0 x && (ltb x 256 && stands (p + 1) xs))

IsCStr-stands : (p : Ptr) (xs : List ℕ) → stands p xs ≡ true → IsCStr image p xs
IsCStr-stands p [] h = ap some (ground arith)
IsCStr-stands p (x ∷ xs) h = (
  ap some (ground arith),
  (ground arith),
  (ground arith),
  IsCStr-stands (p + 1) xs (ground arith),
)

abbrev all_stand : List (List ℕ) → Bool
all_stand [] = true
all_stand (xs ∷ xss) = stands (place_of xs) xs && all_stand xss

IsImage-all_stand : (xss : List (List ℕ)) → all_stand xss ≡ true → IsImage image place_of xss
IsImage-all_stand [] h = tt
IsImage-all_stand (xs ∷ xss) h =
    (IsCStr-stands (place_of xs) xs (ground arith), IsImage-all_stand xss (ground arith))

-- A page fault.
abbrev page_fault : Registers
page_fault = record {
  saved_es = 0;
  saved_ds = 1000;
  cr4 = 2000;
  cr3 = 3000;
  cr2 = 4000;
  cr0 = 5000;
  r15 = 6000;
  r14 = 7000;
  r13 = 8000;
  r12 = 9000;
  r11 = 10000;
  r10 = 11000;
  r9 = 12000;
  r8 = 13000;
  rax = 14000;
  rbx = 15000;
  rcx = 16000;
  rdx = 17000;
  rsi = 18000;
  rdi = 19000;
  rbp = 20000;
  interrupt_vector = 14;
  error_code = 22000;
  rip = 18446744071562067968;
  saved_cs = 8;
  rflags = 25000;
  rsp = 26000;
  saved_ss = 27000;
}

page_fault-IsContext : IsContext page_fault
page_fault-IsContext = (
  (omega arith, (omega arith, (omega arith, (omega arith, tt)))),
  (omega arith, (omega arith, (omega arith, (omega arith, tt)))),
  (omega arith, (omega arith, (omega arith, (omega arith, tt)))),
  (omega arith, (omega arith, (omega arith, (omega arith, tt)))),
  (omega arith, (omega arith, tt)),
  (omega arith, (omega arith, tt)),
)

names_stand : IsImage image place_of exception_names
unfolding exception_names
names_stand = IsImage-all_stand exception_names refl

default_interrupt_handler-report_example :
    (message dump : List ℕ) × (default_interrupt_handler 64 image place_of page_fault
      ≡ done (report message dump))
    × (register_dump 64 image place_of page_fault ≡ done dump)
    × (((32 ≤ 14) × IsMessage (bytes "Unhandled Interrupt Vector ") 14 [] message)
        ⊎ ((name : List ℕ) × (get_elem? exception_names 14 ≡ some name)
            × IsMessage (bytes "Unhandled CPU Exception ") 14 (bytes ": " ++ crlf name) message))
default_interrupt_handler-report_example =
    default_interrupt_handler-report 64 image place_of page_fault
      (IsImage-all_stand panic_texts refl) (IsImage-all_stand dump_texts refl) names_stand
      page_fault-IsContext (omega arith) (omega arith)

register_dump-Shows_example :
    (general pointers low high flags segments : List ℕ) × (register_dump 64 image place_of
        page_fault
      ≡ done (
          crlf (bytes "Register dump:\n")
          ++ general
          ++ pointers
          ++ low
          ++ high
          ++ flags
          ++ segments))
    × Shows 16 (general_fields page_fault) newline general
    × Shows 16 (pointer_fields page_fault) newline pointers
    × Shows 16 (low_fields page_fault) newline low
    × Shows 16 (high_fields page_fault) newline high
    × Shows 16 (flag_fields page_fault) newline flags
    × Shows 4 (segment_fields page_fault) newline segments
register_dump-Shows_example =
    register_dump-Shows 64 image place_of page_fault (IsImage-all_stand dump_texts refl)
      page_fault-IsContext (omega arith)
