-- ===== src/Examples/Digits.antt =====
-- The formatter at small numbers.
use yerp.Format.{
  Buffer, dec_loop, make_dec_string, print_padded, put_back, put_dec, put_text, swap_loop,
}
use yerp.Format.Decimal.{IsDecimal, make_dec_string-IsDecimal}
use yerp.Prelude.{[], arith, refl, true, ◌∷◌, ◌≡◌}

abbrev blank : Buffer
blank i = 0

make_dec_string-IsDecimal_example : IsDecimal 305 (make_dec_string blank 305)
make_dec_string-IsDecimal_example = make_dec_string-IsDecimal blank 305 (omega arith)

three_digits : put_dec blank 305 ≡ b'3' ∷ b'0' ∷ b'5' ∷ []
unfolding put_dec dec_loop put_back
three_digits = refl

padded_digits :
    print_padded (make_dec_string blank 42).1 (make_dec_string blank 42).0 4 true
    ≡ b'0' ∷ b'0' ∷ b'4' ∷ b'2' ∷ []
unfolding print_padded make_dec_string dec_loop swap_loop put_text
padded_digits = refl
