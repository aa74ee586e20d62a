-- ===== src/Arch/Idt/Panic/Message.antt =====
-- The message of the default handler of kernel/Source/arch/idt.hh: the vector, and the name of an
-- exception.
use mathlib.Core.List.{append-nil}
use native.Mathlib.Nat.{mod-eq_of_lt}
use yerp.Arch.Idt.Panic.Dump.{Without-no_brace, labels_and_words}
use yerp.Format.Print.{c_string, print}
use yerp.Format.Printf.{print_with_spec, printf, route, value}
use yerp.Format.Printf.Fields.{braced, crlf, printf-field, printf-plain, puts-crlf}
use yerp.Format.Printf.Hex.{IsHexText, print_with_spec-hex}
use yerp.Format.Printf.Words.{IsWidth, hex_spec, joined, printf-Shows, word}
use yerp.Format.Radix.Put.{radix_value}
use yerp.Format.Spec.{parse_spec}
use yerp.Memory.{Memory, Ptr, done}
use yerp.Memory.Text.{IsCStr, IsCStr-suffix}
use yerp.Prelude.{
  List, [], ap, arith, inr, length, refl, replicate, suc, sym, true, ℕ, ◌++◌, ◌+◌, ◌-◌, ◌<◌, ◌^◌,
  ◌∙◌, ◌∷◌, ◌≡◌, ◌≤◌,
}
use yerp.Prelude.Int.{pos}
use yerp.Prelude.Literals.{bytes}

-- The message shows the vector `v` behind the label, as "0x" and at least two lower case
-- hexadecimal digits, zeros in front where there are fewer, and then the end.
abbrev pub IsMessage : List ℕ → ℕ → List ℕ → List ℕ → Type 0
IsMessage label v end message =
    (text : List ℕ) × (message
      ≡ crlf label ++ ((b'0' ∷ b'x' ∷ (replicate (2 - length text) b'0' ++ text)) ++ end))
    × (0 < length text)
    × (length text ≤ 16)
    × IsHexText text
    × (radix_value 16 0 text ≡ v)

IsWidth-2 : IsWidth (bytes "2")
IsWidth-2 = (
  ((omega arith, omega arith), tt),
  refl,
  omega arith,
  (refl, (refl, (refl, (refl, (refl, tt))))),
)

pub interrupt-IsMessage :
    (f : ℕ) (m : Memory) (p : Ptr) (v : ℕ)
    → IsCStr m p (bytes "Unhandled Interrupt Vector {:#02x}")
    → v < 2 ^ 64
    → 64 ≤ f
    → (message : List ℕ) × (printf f m p (word v ∷ []) ≡ done message)
      × IsMessage (bytes "Unhandled Interrupt Vector ") v [] message
interrupt-IsMessage f m p v at small fuel =
    let xs : List (List ℕ × ℕ) = (bytes "Unhandled Interrupt Vector ", v) ∷ [] in
    let (out, printed, (text, rest, e, some_digit, few, all_hex, read, e')) =
      printf-Shows f m p (bytes "2") xs [] IsWidth-2 (labels_and_words xs refl (small, tt)) at
        (omega arith) in
    (out, printed, (text, rw e' at e, some_digit, few, all_hex, read))

-- A string behind a colon.
name_field :
    (f : ℕ) (m : Memory) (p q : Ptr) (name : List ℕ)
    → IsCStr m p (bytes ": {}")
    → IsCStr m q name
    → length name + 3 < f
    → printf f m p (value (c_string q) ∷ []) ≡ done (bytes ": " ++ crlf name)
unfolding print_with_spec route print printf parse_spec
name_field f m p q name at there fuel =
    let f' = f - 3 in
    let split : 2 + suc f' ≡ f = omega arith in
    let step =
      printf-field f' m p (bytes ": ") [] [] (value (c_string q)) [] at (refl, (refl, tt)) tt tt
        (omega arith) in
    let behind = p + length (bytes ": ") + 1 + 0 + 1 in
    let at_end : p + 1 + 1 + 1 + 1 ≡ behind = omega arith in
    let ended : printf f' m behind [] ≡ done [] =
      printf-plain f' m behind [] [] (rw at_end at at.3.3.3.3) (inr refl) (omega arith) in
    let named : print_with_spec f' m (value (c_string q)) [] ≡ done (crlf name) =
      puts-crlf f' m q name there (omega arith) in
    ap (λ k. printf k m p (value (c_string q) ∷ [])) (sym split)
    ∙ step
    ∙ joined (bytes ": ") (crlf name) [] _ _ named ended
    ∙ ap (λ l. done (bytes ": " ++ l)) (append-nil (crlf name))

pub exception-IsMessage :
    (f : ℕ) (m : Memory) (p q : Ptr) (v : ℕ) (name : List ℕ)
    → IsCStr m p (bytes "Unhandled CPU Exception {:#02x}: {}")
    → IsCStr m q name
    → length name < 32
    → v < 2 ^ 64
    → 64 ≤ f
    → (message : List ℕ) × (printf f m p (word v ∷ value (c_string q) ∷ []) ≡ done message)
      × IsMessage (bytes "Unhandled CPU Exception ") v (bytes ": " ++ crlf name) message
exception-IsMessage f m p q v name at there short small fuel =
    let f' = f - 25 in
    let split : 24 + suc f' ≡ f = omega arith in
    let label = bytes "Unhandled CPU Exception " in
    let spec = hex_spec (bytes "2") in
    let end = bytes ": {}" in
    let at_brace = IsCStr-suffix m p label (braced spec end) at in
    let end_at = (IsCStr-suffix m (p + length label + 1) spec (b'}' ∷ end) at_brace.3).3 in
    let rest_printed =
      name_field f' m (p + length label + 1 + length spec + 1) q name end_at there (omega arith) in
    let (text, field_printed, some_digit, few, all_hex, read) =
      print_with_spec-hex f' m (pos v) true true (bytes "2") IsWidth-2.0 IsWidth-2.1 IsWidth-2.2 in
    let step =
      printf-field f' m p label spec end (word v) (value (c_string q) ∷ []) at
        (Without-no_brace label refl) (refl, tt) IsWidth-2.3 (omega arith) in
    let field = b'0' ∷ b'x' ∷ (replicate (2 - length text) b'0' ++ text) in
    (
      crlf label ++ (field ++ (bytes ": " ++ crlf name)),
      ap (λ k. printf k m p (word v ∷ value (c_string q) ∷ [])) (sym split)
          ∙ step
          ∙ joined (crlf label) field (bytes ": " ++ crlf name) _ _ field_printed rest_printed,
      (text, refl, some_digit, few, all_hex, read ∙ mod-eq_of_lt small),
    )
