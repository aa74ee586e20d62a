-- ===== src/Util/Strtol/Limit.antt =====
-- What `strtol` makes of a number without a minus sign.
use yerp.Memory.{Memory, Ptr, done, load-eq}
use yerp.Prelude.{arith, false, leb, ltb, some, suc, true, ℕ, ◌+◌, ◌/◌, ◌<◌, ◌==◌, ◌≡◌, ◌≤◌}
use yerp.Prelude.Int.{pos, to_char}
use yerp.Util.Ctype.{isspace}
use yerp.Util.Strtol.{digit_of, digits_loop, long_max, skip_space, strtol, strtoll}

threshold_pos : (base : ℕ) → 1 < base → base ≤ 36 → 0 < long_max / base
threshold_pos base lo hi = grind arith

-- A character with a digit value is no space, no sign and no terminator.
digit_facts :
    (c d : ℕ)
    → digit_of (to_char c) ≡ some (pos d)
    → (isspace (to_char c) ≡ false)
      × ((c == b'-') ≡ false)
      × ((c == b'+') ≡ false)
      × ((c == 0) ≡ false)
unfolding digit_of isspace
digit_facts c d h = ground arith

strtol_saturated :
    (f : ℕ) (m : Memory) (s : Ptr) (base c d : ℕ)
    → m s ≡ some c
    → digit_of (to_char c) ≡ some (pos d)
    → d < base
    → 1 < base
    → base ≤ 36
    → strtol (suc f) m s (pos base) ≡ done (pos long_max, some s)
unfolding strtol skip_space digits_loop
strtol_saturated f m s base c d e digit below lo hi =
    let (no_space, no_minus, no_plus, no_end) = digit_facts c d digit in
    let room : ltb 0 (long_max / base + 0) ≡ true =
      let p = threshold_pos base lo hi in ground arith in
    let not_one : (base == 1) ≡ false = ground arith in
    let not_large : ltb 36 base ≡ false = ground arith in
    let not_zero : (base == 0) ≡ false = ground arith in
    let in_base : leb (base + 0) (d + 0) ≡ false = ground arith in
    rw
      (
        not_one,
        not_large,
        load-eq m s c e,
        no_space,
        load-eq m s c e,
        no_minus,
        no_plus,
        not_zero,
        load-eq m s c e,
        no_end,
        digit,
        in_base,
      )
      (ground (arith, room))

-- `strtol` and `strtoll` with a base from 2 to 36, of a string that begins with a digit of this
-- base, return `LONG_MAX` and report that they have read no character, whatever number the string
-- holds: the test for an overflow asks whether the result is below the threshold and is true at
-- the first digit.
pub strtol-saturates :
    (f : ℕ) (m : Memory) (s : Ptr) (base c d : ℕ)
    → m s ≡ some c
    → digit_of (to_char c) ≡ some (pos d)
    → d < base
    → 1 < base
    → base ≤ 36
    → (strtol (suc f) m s (pos base) ≡ done (pos long_max, some s))
      × (strtoll (suc f) m s (pos base) ≡ done (pos long_max, some s))
unfolding strtoll
strtol-saturates f m s base c d e digit below lo hi =
    let run = strtol_saturated f m s base c d e digit below lo hi in (run, run)
