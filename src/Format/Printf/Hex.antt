-- ===== src/Format/Printf/Hex.antt =====
-- An integer in a field with the type `x`, from the specification to the characters.
use yerp.Format.{Buffer, print_padded, put_text}
use yerp.Format.Decimal.{IsDigit}
use yerp.Format.Print.{blank, integer, to_u64}
use yerp.Format.Printf.{print_with_spec, route, route_integral, value}
use yerp.Format.Radix.{hex_digit, make_hex_string}
use yerp.Format.Radix.Put.{radix_value}
use yerp.Format.Radix.Texts.{hex_value, make_hex_string-IsRadix, radix_reads}
use yerp.Format.Spec.{FormatSpec}
use yerp.Format.Spec.Parse.{flag, parse_spec-parts, starts}
use yerp.Memory.{Memory, done}
use yerp.Prelude.{
  All, Bool, List, [], ap, arith, false, if◌then◌else◌, length, refl, replicate, suc, true, zero, ℕ,
  ◌++◌, ◌+◌, ◌-◌, ◌<◌, ◌^◌, ◌∙◌, ◌∷◌, ◌≡◌, ◌≤◌,
}
use yerp.Prelude.Int.{ℤ}
use yerp.Util.Number.{int_max}
use yerp.Util.Number.Text.{decimal}

-- The number that the characters of a buffer stand for is that of the text they are put as.
put_text-reads :
    (n i : ℕ) (buf : Buffer)
    → radix_value 16 (radix_reads 16 hex_value buf i) (put_text n i buf)
      ≡ radix_reads 16 hex_value buf (i + n)
unfolding put_text
put_text-reads zero i buf = let e : i + 0 ≡ i = omega arith in rw e
put_text-reads (suc n) i buf =
    let next : i + 1 ≡ suc i = omega arith in
    let e : suc i + n ≡ i + suc n = omega arith in
    rw next (put_text-reads n (suc i) buf ∙ ap (radix_reads 16 hex_value buf) e)

length-put_text : (n i : ℕ) (buf : Buffer) → length (put_text n i buf) ≡ n
unfolding put_text
length-put_text zero i buf = refl
length-put_text (suc n) i buf = ap suc (length-put_text n (i + 1) buf)

-- A text of lower case hexadecimal digits, the characters 0 to 9 and a to f.
abbrev pub IsHexText : List ℕ → Type 0
IsHexText text = All (λ c. (d : ℕ) × (d < 16) × (c ≡ hex_digit true d)) text

put_text-IsHexText :
    (n i : ℕ) (buf : Buffer)
    → ((j : ℕ) → j < i + n → (d : ℕ) × (d < 16) × (buf j ≡ hex_digit true d))
    → IsHexText (put_text n i buf)
unfolding put_text
put_text-IsHexText zero i buf h = tt
put_text-IsHexText (suc n) i buf h =
    (h i (omega arith), put_text-IsHexText n (i + 1) buf (λ j lt. h j (omega arith)))

route_integral-hex :
    (val : ℕ) (fs : FormatSpec)
    → val < 2 ^ 64
    → fs.spec_type ≡ b'x'
    → (text : List ℕ) × (route_integral val fs
        ≡ (if fs.alternate then b'0' ∷ b'x' ∷ [] else [])
          ++ (replicate (fs.width - length text) (if fs.zero_pad then b'0' else b' ') ++ text))
      × (0 < length text)
      × (length text ≤ 16)
      × IsHexText text
      × (radix_value 16 0 text ≡ val)
unfolding route_integral print_padded
route_integral-hex val fs word kind =
    let (n, buf) = make_hex_string blank val true in
    let (positive, small, value_of, all_digits, _) = make_hex_string-IsRadix blank val true word in
    let len = length-put_text n 0 buf in
    let read = put_text-reads n 0 buf in
    let at : 0 + n ≡ n = omega arith in
    (
      put_text n 0 buf,
      rw (kind, len),
      rw len positive,
      rw len small,
      put_text-IsHexText n 0 buf (λ j lt. all_digits j (omega arith)),
      read ∙ rw at value_of,
    )

to_u64-word : (v : ℤ) → to_u64 v < 2 ^ 64
to_u64-word v = ground arith

-- A field that is made of a colon, `#` or not, `0` or not, a decimal width of at most `INT_MAX`
-- with no zero in front or no width, and `x` puts an integer as "0x" where there is a `#`, then
-- zeros or blanks, as many as the width exceeds the digits, and then from 1 to 16 lower case
-- hexadecimal digits that stand in base 16 for the integer converted to `u64`.
pub print_with_spec-hex :
    (f : ℕ) (m : Memory) (v : ℤ) (alternate zero_pad : Bool) (ds : List ℕ)
    → All IsDigit ds
    → starts b'0' ds ≡ false
    → decimal 0 ds ≤ int_max
    → (text : List ℕ) × (print_with_spec f m
          (value (integer v))
          (b':' ∷ flag b'#' alternate (flag b'0' zero_pad (ds ++ b'x' ∷ [])))
        ≡ done (
            (if alternate then b'0' ∷ b'x' ∷ [] else [])
            ++ (replicate (decimal 0 ds - length text) (if zero_pad then b'0' else b' ') ++ text)))
      × (0 < length text)
      × (length text ≤ 16)
      × IsHexText text
      × (radix_value 16 0 text ≡ to_u64 v)
unfolding print_with_spec route
print_with_spec-hex f m v alternate zero_pad ds digits no_zero fits =
    let fs : FormatSpec = record {
      alternate = alternate;
      zero_pad = zero_pad;
      width = decimal 0 ds;
      spec_type = b'x';
    } in
    let parsed =
      parse_spec-parts true alternate zero_pad ds (b'x' ∷ []) digits no_zero fits
        (refl, refl, refl) in
    let (text, run, some_digit, few, all_hex, read) =
      route_integral-hex (to_u64 v) fs (to_u64-word v) refl in
    (text, rw (parsed, run), some_digit, few, all_hex, read)
