-- ===== src/Examples/Formats.antt =====
-- The formatter at single inputs.
use yerp.Format.{dec_loop, print_padded, put_back, put_dec, put_text, swap_loop}
use yerp.Format.Print.{blank, integer, print, puts}
use yerp.Format.Printf.{print_with_spec, printf, route, route_integral, scan_spec, value}
use yerp.Format.Printf.Fields.{after, field_then, printf-field}
use yerp.Format.Printf.Hex.{IsHexText, print_with_spec-hex}
use yerp.Format.Radix.{hex_digit, make_hex_string, radix_loop}
use yerp.Format.Radix.Put.{radix_value}
use yerp.Format.Radix.Texts.{IsRadix, hex_value, make_hex_string-IsRadix}
use yerp.Format.Spec.{parse_spec}
use yerp.Format.Spec.Parse.{parse_spec-parts}
use yerp.Memory.{Memory, done, load}
use yerp.Prelude.{
  List, [], arith, get_elem?, if◌then◌else◌, leb, length, none, refl, replicate, true, ℕ, ◌++◌, ◌-◌,
  ◌<◌, ◌∷◌, ◌≡◌, ◌≤◌,
}
use yerp.Prelude.Int.{negsuc, pos}

make_hex_string-IsRadix_example :
    IsRadix 16 (hex_digit true) hex_value 16 48879 (make_hex_string blank 48879 true)
make_hex_string-IsRadix_example = make_hex_string-IsRadix blank 48879 true (omega arith)

-- ":#08x"
parse_spec-parts_example :
    parse_spec (b':' ∷ b'#' ∷ b'0' ∷ b'8' ∷ b'x' ∷ [])
    ≡ done (record { alternate = true; zero_pad = true; width = 8; spec_type = b'x' })
parse_spec-parts_example =
    parse_spec-parts true true true (b'8' ∷ []) (b'x' ∷ []) ((omega arith, omega arith), tt) refl
      (omega arith) (refl, refl, refl)

-- The string "a{:#x}b" at 10.
abbrev field_text : List ℕ
field_text = b'a' ∷ b'{' ∷ b':' ∷ b'#' ∷ b'x' ∷ b'}' ∷ b'b' ∷ 0 ∷ []

abbrev field_memory : Memory
field_memory a = if leb 10 a then get_elem? field_text (a - 10) else none

printf-field_example :
    printf 6 field_memory 10 (value (integer (pos 255)) ∷ [])
    ≡ after (b'a' ∷ []) (
        field_then
          (print_with_spec 4 field_memory (value (integer (pos 255))) (b':' ∷ b'#' ∷ b'x' ∷ []))
          (printf 4 field_memory 16 []))
printf-field_example =
    printf-field 4 field_memory 10 (b'a' ∷ []) (b':' ∷ b'#' ∷ b'x' ∷ []) (b'b' ∷ [])
      (value (integer (pos 255))) []
      (
        refl,
        omega arith,
        omega arith,
        (
          refl,
          omega arith,
          omega arith,
          (
            refl,
            omega arith,
            omega arith,
            (
              refl,
              omega arith,
              omega arith,
              (
                refl,
                omega arith,
                omega arith,
                (refl, omega arith, omega arith, (refl, omega arith, omega arith, refl)),
              ),
            ),
          ),
        ),
      )
      (refl, tt) (refl, tt) (refl, (refl, (refl, tt))) (omega arith)

-- The text is "a0xFFb" with lower case digits.
field_run :
    printf 6 field_memory 10 (value (integer (pos 255)) ∷ [])
    ≡ done (b'a' ∷ b'0' ∷ b'x' ∷ b'f' ∷ b'f' ∷ b'b' ∷ [])
unfolding printf scan_spec print_with_spec parse_spec route route_integral make_hex_string
    radix_loop swap_loop print_padded put_text puts load
field_run = refl

-- The string "{{x" at 10.
abbrev escape_memory : Memory
escape_memory a = if leb 10 a then get_elem? (b'{' ∷ b'{' ∷ b'x' ∷ 0 ∷ []) (a - 10) else none

-- A negative integer is printed as a number of 64 bits.
negative_run :
    print 1 escape_memory (integer (negsuc 0))
    ≡ done (
        b'1' ∷ b'8' ∷ b'4' ∷ b'4' ∷ b'6' ∷ b'7' ∷ b'4' ∷ b'4' ∷ b'0' ∷ b'7' ∷ b'3' ∷ b'7' ∷ b'0'
        ∷ b'9' ∷ b'5' ∷ b'5' ∷ b'1' ∷ b'6' ∷ b'1' ∷ b'5' ∷ [])
unfolding print put_dec dec_loop put_back
negative_run = refl

-- ":#08x" and the number -1, as an integer of 64 bits.
print_with_spec-hex_example :
    (text : List ℕ) × (print_with_spec 1 escape_memory
        (value (integer (negsuc 0)))
        (b':' ∷ b'#' ∷ b'0' ∷ b'8' ∷ b'x' ∷ [])
      ≡ done (b'0' ∷ b'x' ∷ (replicate (8 - length text) b'0' ++ text)))
    × (0 < length text)
    × (length text ≤ 16)
    × IsHexText text
    × (radix_value 16 0 text ≡ 18446744073709551615)
print_with_spec-hex_example =
    print_with_spec-hex 1 escape_memory (negsuc 0) true true (b'8' ∷ [])
      ((omega arith, omega arith), tt) refl (omega arith)
