-- ===== src/Arch/Idt/Panic/Dump.antt =====
-- What `kpanic` of kernel/Source/arch/idt.hh prints of the registers.
use yerp.Arch.Idt.Panic.{Registers, register_dump}
use yerp.Format.Print.{print}
use yerp.Format.Printf.{printf}
use yerp.Format.Printf.Fields.{Without, crlf, puts-crlf}
use yerp.Format.Printf.Words.{IsWidth, Shows, labelled, printf-Shows, words}
use yerp.Memory.{Memory, Ptr, done}
use yerp.Memory.Text.{IsCStr}
use yerp.Prelude.{
  All, Bool, List, [], arith, length, not, refl, true, ℕ, ◌&&◌, ◌++◌, ◌<◌, ◌==◌, ◌^◌, ◌∷◌, ◌≡◌, ◌≤◌,
}
use yerp.Prelude.Literals.{bytes}
use yerp.Util.Number.Text.{decimal}

-- The literals stand in the image.
abbrev pub IsImage : Memory → (List ℕ → Ptr) → List (List ℕ) → Type 0
IsImage m literal texts = All (λ xs. IsCStr m (literal xs) xs) texts

abbrev pub no_brace : List ℕ → Bool
no_brace [] = true
no_brace (x ∷ xs) = not (x == b'{') && no_brace xs

abbrev pub plain_labels : List (List ℕ × ℕ) → Bool
plain_labels [] = true
plain_labels (x ∷ xs) = no_brace (x.0) && plain_labels xs

pub Without-no_brace : (xs : List ℕ) → no_brace xs ≡ true → Without b'{' xs
Without-no_brace [] h = tt
Without-no_brace (x ∷ xs) h = (ground arith, Without-no_brace xs (ground arith))

pub labels_and_words :
    (xs : List (List ℕ × ℕ))
    → plain_labels xs ≡ true
    → All (λ x. x.1 < 2 ^ 64) xs
    → All (λ x. Without b'{' (x.0) × (x.1 < 2 ^ 64)) xs
labels_and_words [] plain h = tt
labels_and_words (x ∷ xs) plain h =
    ((Without-no_brace (x.0) (ground arith), h.0), labels_and_words xs (ground arith) h.1)

abbrev pub newline : List ℕ
newline = bytes "\n"

-- The labels of the six lines, each with its register.
abbrev pub general_fields : Registers → List (List ℕ × ℕ)
general_fields r =
    (bytes "RAX=", r.rax)
    ∷ (bytes " RBX=", r.rbx)
    ∷ (bytes " RCX=", r.rcx)
    ∷ (bytes " RDX=", r.rdx)
    ∷ []

abbrev pub pointer_fields : Registers → List (List ℕ × ℕ)
pointer_fields r =
    (bytes "RSI=", r.rsi)
    ∷ (bytes " RDI=", r.rdi)
    ∷ (bytes " RBP=", r.rbp)
    ∷ (bytes " RSP=", r.rsp)
    ∷ []

abbrev pub low_fields : Registers → List (List ℕ × ℕ)
low_fields r =
    (bytes "R8 =", r.r8)
    ∷ (bytes " R9 =", r.r9)
    ∷ (bytes " R10=", r.r10)
    ∷ (bytes " R11=", r.r11)
    ∷ []

abbrev pub high_fields : Registers → List (List ℕ × ℕ)
high_fields r =
    (bytes "R12=", r.r12)
    ∷ (bytes " R13=", r.r13)
    ∷ (bytes " R14=", r.r14)
    ∷ (bytes " R15=", r.r15)
    ∷ []

abbrev pub flag_fields : Registers → List (List ℕ × ℕ)
flag_fields r = (bytes "RIP=", r.rip) ∷ (bytes " RFLAGS=", r.rflags) ∷ []

abbrev pub segment_fields : Registers → List (List ℕ × ℕ)
segment_fields r = (bytes "CS =", r.saved_cs) ∷ (bytes " SS=", r.saved_ss) ∷ []

-- The literals of the dump.
abbrev pub dump_texts : List (List ℕ)
dump_texts =
    bytes "Register dump:\n"
    ∷ bytes "RAX={:#016x} RBX={:#016x} RCX={:#016x} RDX={:#016x}\n"
    ∷ bytes "RSI={:#016x} RDI={:#016x} RBP={:#016x} RSP={:#016x}\n"
    ∷ bytes "R8 ={:#016x} R9 ={:#016x} R10={:#016x} R11={:#016x}\n"
    ∷ bytes "R12={:#016x} R13={:#016x} R14={:#016x} R15={:#016x}\n"
    ∷ bytes "RIP={:#016x} RFLAGS={:#016x}\n"
    ∷ bytes "CS ={:#04x} SS={:#04x}\n"
    ∷ []

-- Every register is a number of 64 bits.
abbrev pub IsContext : Registers → Type 0
IsContext r =
    All (λ x. x.1 < 2 ^ 64) (general_fields r)
    × All (λ x. x.1 < 2 ^ 64) (pointer_fields r)
    × All (λ x. x.1 < 2 ^ 64) (low_fields r)
    × All (λ x. x.1 < 2 ^ 64) (high_fields r)
    × All (λ x. x.1 < 2 ^ 64) (flag_fields r)
    × All (λ x. x.1 < 2 ^ 64) (segment_fields r)

IsWidth-16 : IsWidth (bytes "16")
IsWidth-16 = (
  ((omega arith, omega arith), ((omega arith, omega arith), tt)),
  refl,
  omega arith,
  (refl, (refl, (refl, (refl, (refl, (refl, tt)))))),
)

IsWidth-4 : IsWidth (bytes "4")
IsWidth-4 = (
  ((omega arith, omega arith), tt),
  refl,
  omega arith,
  (refl, (refl, (refl, (refl, (refl, tt))))),
)

dump_line :
    (f : ℕ) (m : Memory) (literal : List ℕ → Ptr) (ds : List ℕ) (xs : List (List ℕ × ℕ))
    → IsWidth ds
    → plain_labels xs ≡ true
    → All (λ x. x.1 < 2 ^ 64) xs
    → IsCStr m (literal (labelled ds xs newline)) (labelled ds xs newline)
    → length (labelled ds xs newline) < f
    → (out : List ℕ) × (printf f m (literal (labelled ds xs newline)) (words xs) ≡ done out)
      × Shows (decimal 0 ds) xs newline out
dump_line f m literal ds xs width plain small at fuel =
    printf-Shows f m (literal (labelled ds xs newline)) ds xs newline width
      (labels_and_words xs plain small) at fuel

-- When the literals of the dump stand in the image, the eighteen registers that it prints are
-- numbers of 64 bits and the fuel is at least 64, the dump shows each of these registers behind its
-- label, as "0x" and lower case hexadecimal digits that stand for its value, zeros in front: 16
-- digits or, for the two segment registers, at least 4.
pub register_dump-Shows :
    (f : ℕ) (m : Memory) (literal : List ℕ → Ptr) (r : Registers)
    → IsImage m literal dump_texts
    → IsContext r
    → 64 ≤ f
    → (general pointers low high flags segments : List ℕ) × (register_dump f m literal r
        ≡ done (
            crlf (bytes "Register dump:\n")
            ++ general
            ++ pointers
            ++ low
            ++ high
            ++ flags
            ++ segments))
      × Shows 16 (general_fields r) newline general
      × Shows 16 (pointer_fields r) newline pointers
      × Shows 16 (low_fields r) newline low
      × Shows 16 (high_fields r) newline high
      × Shows 16 (flag_fields r) newline flags
      × Shows 4 (segment_fields r) newline segments
unfolding register_dump print
register_dump-Shows f m literal r image context fuel =
    let title =
      puts-crlf f m (literal (bytes "Register dump:\n")) (bytes "Register dump:\n") (image.0)
        (omega arith) in
    let (a, run_a, shows_a) =
      dump_line f m literal (bytes "16") (general_fields r) IsWidth-16 refl (context.0) (image.1.0)
        (omega arith) in
    let (b, run_b, shows_b) =
      dump_line f m literal (bytes "16") (pointer_fields r) IsWidth-16 refl (context.1)
        (image.1.1.0) (omega arith) in
    let (c, run_c, shows_c) =
      dump_line f m literal (bytes "16") (low_fields r) IsWidth-16 refl (context.2) (image.1.1.1.0)
        (omega arith) in
    let (d, run_d, shows_d) =
      dump_line f m literal (bytes "16") (high_fields r) IsWidth-16 refl (context.3)
        (image.1.1.1.1.0) (omega arith) in
    let (e, run_e, shows_e) =
      dump_line f m literal (bytes "16") (flag_fields r) IsWidth-16 refl (context.4)
        (image.1.1.1.1.1.0) (omega arith) in
    let (g, run_g, shows_g) =
      dump_line f m literal (bytes "4") (segment_fields r) IsWidth-4 refl (context.5)
        (image.1.1.1.1.1.1.0) (omega arith) in
    (
      a,
      b,
      c,
      d,
      e,
      g,
      rw (print, title, run_a, run_b, run_c, run_d, run_e, run_g),
      shows_a,
      shows_b,
      shows_c,
      shows_d,
      shows_e,
      shows_g,
    )
