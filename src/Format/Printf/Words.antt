-- ===== src/Format/Printf/Words.antt =====
-- What `printf` makes of a line of labels, each with a hexadecimal field behind it.
use native.Mathlib.Nat.{mod-eq_of_lt}
use yerp.Format.Decimal.{IsDigit}
use yerp.Format.Print.{integer}
use yerp.Format.Printf.{Arg, printf, value}
use yerp.Format.Printf.Fields.{Without, after, braced, crlf, field_then, printf-field, printf-plain}
use yerp.Format.Printf.Hex.{IsHexText, print_with_spec-hex}
use yerp.Format.Radix.Put.{radix_value}
use yerp.Format.Spec.Parse.{flag, starts}
use yerp.Memory.{Memory, Outcome, Ptr, done}
use yerp.Memory.Text.{IsCStr, IsCStr-suffix}
use yerp.Prelude.{
  All, List, [], ap, arith, false, inr, length, length-append, map, refl, replicate, suc, sym, true,
  ℕ, ◌++◌, ◌+◌, ◌-◌, ◌<◌, ◌^◌, ◌∙◌, ◌∷◌, ◌≡◌, ◌≤◌,
}
use yerp.Prelude.Int.{pos}
use yerp.Util.Number.{int_max}
use yerp.Util.Number.Text.{decimal}

-- The text between the braces: `:#0`, the digits of a width, `x`.
abbrev pub hex_spec : List ℕ → List ℕ
hex_spec ds = b':' ∷ flag b'#' true (flag b'0' true (ds ++ b'x' ∷ []))

abbrev pub IsWidth : List ℕ → Type 0
IsWidth ds =
    All IsDigit ds
    × (starts b'0' ds ≡ false)
    × (decimal 0 ds ≤ int_max)
    × Without b'}' (hex_spec ds)

-- The labels, each with the field behind it, and the end of the line.
abbrev pub labelled : List ℕ → List (List ℕ × ℕ) → List ℕ → List ℕ
labelled ds [] tail = tail
labelled ds (x ∷ xs) tail = x.0 ++ braced (hex_spec ds) (labelled ds xs tail)

-- An argument of type `u64`.
abbrev pub word : ℕ → Arg
word v = value (integer (pos v))

abbrev pub words : List (List ℕ × ℕ) → List Arg
words xs = map (λ x. word (x.1)) xs

-- The line `out` shows every label, then "0x", zeros up to the width and lower case hexadecimal
-- digits, from 1 to 16, that stand for the number.
abbrev pub Shows : ℕ → List (List ℕ × ℕ) → List ℕ → List ℕ → Type 0
Shows width [] tail out = out ≡ crlf tail
Shows width (x ∷ xs) tail out =
    (text rest : List ℕ) × (out
      ≡ crlf (x.0) ++ ((b'0' ∷ b'x' ∷ (replicate (width - length text) b'0' ++ text)) ++ rest))
    × (0 < length text)
    × (length text ≤ 16)
    × IsHexText text
    × (radix_value 16 0 text ≡ x.1)
    × Shows width xs tail rest

pub joined :
    (xs field rest : List ℕ) (r r' : Outcome (List ℕ))
    → r ≡ done field
    → r' ≡ done rest
    → after xs (field_then r r') ≡ done (xs ++ (field ++ rest))
joined xs field rest r r' e e' = rw (e, e')

-- `printf` of a line of labels without braces and of as many 64-bit numbers shows them all. The
-- fuel is for more rounds than the line has characters.
pub printf-Shows :
    (f : ℕ) (m : Memory) (p : Ptr) (ds : List ℕ) (xs : List (List ℕ × ℕ)) (tail : List ℕ)
    → IsWidth ds
    → All (λ x. Without b'{' (x.0) × (x.1 < 2 ^ 64)) xs
    → IsCStr m p (labelled ds xs tail)
    → length (labelled ds xs tail) < f
    → (out : List ℕ) × (printf f m p (words xs) ≡ done out) × Shows (decimal 0 ds) xs tail out
printf-Shows f m p ds [] tail w h at fuel =
    (crlf tail, printf-plain f m p tail [] at (inr refl) fuel, refl)
printf-Shows f m p ds (x ∷ xs) tail w h at fuel =
    let spec = hex_spec ds in
    let rest_text = labelled ds xs tail in
    let lengths = length-append (x.0) (braced spec rest_text) in
    let lengths' = length-append spec (b'}' ∷ rest_text) in
    let f' = f - length (x.0) - 1 in
    let fuel_split : length (x.0) + suc f' ≡ f = omega (arith, lengths, lengths') in
    let behind = IsCStr-suffix m p (x.0) (braced spec rest_text) at in
    let rest_at = (IsCStr-suffix m (p + length (x.0) + 1) spec (b'}' ∷ rest_text) behind.3).3 in
    let (out, rest_run, shown) =
      printf-Shows f' m (p + length (x.0) + 1 + length spec + 1) ds xs tail w h.1 rest_at
        (omega (arith, lengths, lengths')) in
    let (text, field_run, some_digit, few, all_hex, read) =
      print_with_spec-hex f' m (pos (x.1)) true true ds w.0 w.1 w.2 in
    let step =
      printf-field f' m p (x.0) spec rest_text (word (x.1)) (words xs) at h.0.0 (refl, tt) w.3
        (omega (arith, lengths, lengths')) in
    (
      crlf (x.0) ++ ((b'0' ∷ b'x' ∷ (replicate (decimal 0 ds - length text) b'0' ++ text)) ++ out),
      ap (λ k. printf k m p (word (x.1) ∷ words xs)) (sym fuel_split)
          ∙ step
          ∙ joined (crlf (x.0)) _ out _ _ field_run rest_run,
      (text, out, refl, some_digit, few, all_hex, read ∙ mod-eq_of_lt h.0.1, shown),
    )
