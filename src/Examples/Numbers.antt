-- ===== src/Examples/Numbers.antt =====
-- The character functions and `strtol` at single inputs.
use yerp.Memory.{Memory, done, load}
use yerp.Prelude.{arith, if◌then◌else◌, none, refl, some, ◌==◌, ◌≡◌}
use yerp.Prelude.Int.{negsuc, pos, to_char, ◌*ℤ◌, ◌+ℤ◌}
use yerp.Util.Ctype.{isspace}
use yerp.Util.Strtol.{digit_of, long_max, strtol, strtoll}
use yerp.Util.Strtol.Limit.{strtol-saturates}

-- The string "7" at 50 and the string "-7" at 60.
abbrev sevens : Memory
sevens a =
    if a == 50
    then some 55
    else if a == 51
    then some 0
    else if a == 60
    then some 45
    else if a == 61
    then some 55
    else if a == 62
    then some 0
    else none

seven_digit : digit_of (to_char 55) ≡ some (pos 7)
unfolding digit_of
seven_digit = refl

strtol-saturates_example :
    (strtol 5 sevens 50 (pos 10) ≡ done (pos long_max, some 50))
    × (strtoll 5 sevens 50 (pos 10) ≡ done (pos long_max, some 50))
strtol-saturates_example =
    strtol-saturates 4 sevens 50 10 55 7 refl seven_digit (omega arith) (omega arith) (omega arith)

-- With a minus sign the number is read.
minus_seven : strtol 5 sevens 60 (pos 10) ≡ done (negsuc 6, some 62)
unfolding strtol load isspace digit_of ◌*ℤ◌ ◌+ℤ◌
minus_seven = refl
