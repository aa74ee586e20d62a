-- ===== src/Examples/Conversions.antt =====
-- The conversions between numbers and decimal texts at single inputs.
-- 21 mapped bytes from 100 on.
use yerp.Memory.{Memory, done, fault, load, store, ◌>>=◌}
use yerp.Prelude.{if◌then◌else◌, leb, ltb, none, refl, some, ◌&&◌, ◌==◌, ◌≡◌}
use yerp.Prelude.Int.{negsuc, pos, ◌+ℤ◌}
use yerp.Util.Number.{
  digit_char, end_text, int_max, itoa, quot, rem, reverse_loop, reverse_text, write_digits,
  write_number,
}

abbrev room : Memory
room a = if leb 100 a && ltb a 121 then some 7 else none

-- The string "-12" at 60.
abbrev minus_twelve : Memory
minus_twelve a =
    if a == 60
    then some 45
    else if a == 61
    then some 49
    else if a == 62
    then some 50
    else if a == 63
    then some 0
    else none

-- The smallest `int` has no text of the base 10.
itoa_smallest : itoa 12 room (negsuc int_max) 100 (pos 10) ≡ fault
unfolding itoa write_number
itoa_smallest = refl

-- With the base 16 the digits of a negative number come out as other characters: -1 is "/".
itoa_negative_hex : (do m' ← itoa 12 room (negsuc 0) 100 (pos 16); load m' 100) ≡ done b'/'
unfolding itoa write_number write_digits digit_char rem quot end_text reverse_text reverse_loop
    store load ◌+ℤ◌
itoa_negative_hex = refl
