-- ===== src/Util/Strtol.antt =====
-- `strtol` of kernel/Source/util/string.c. `long` has 64 bits; a signed overflow and a division
-- by zero are faults. The loops take fuel, one unit for each round.
pub mod Limit
use yerp.Memory.{Memory, Outcome, Ptr, done, fault, load, out_of_fuel, ◌>>=◌}
use yerp.Prelude.{
  Bool, Option, false, if◌then◌else◌, ltb, none, some, suc, true, zero, ℕ, ◌%◌, ◌&&◌, ◌+◌, ◌-◌, ◌/◌,
  ◌==◌, ◌^◌, ◌||◌,
}
use yerp.Prelude.Int.{
  eq_ℤ, leb_ℤ, ltb_ℤ, neg_part, negsuc, pos, pos_part, sub_ℕ, to_char, ℤ, ◌*ℤ◌, ◌+ℤ◌, ◌-ℤ◌,
}
use yerp.Util.Ctype.{isalpha, isdigit, isspace, tolower}

abbrev pub long_max : ℕ
long_max = 2 ^ 63 - 1

-- `while ( isspace( *str ) ) { ++str; }`
unfoldable pub skip_space : ℕ → Memory → Ptr → Outcome Ptr
skip_space zero m str = out_of_fuel
skip_space (suc f) m str = do
  b ← load m str
  let rest = skip_space f m (str + 1)
  if isspace (to_char b) then rest else done str

-- `limit` is `LONG_MAX` for the sign 1 and `LONG_MIN` for the sign -1 (`negative`).
abbrev pub limit_of : Bool → ℤ
limit_of negative = if negative then negsuc long_max else pos long_max

-- `limit / base` and `limit % base`, rounded towards zero as in C.
abbrev pub threshold : Bool → ℕ → ℤ
threshold negative base =
    if negative then sub_ℕ 0 ((long_max + 1) / base) else pos (long_max / base)

abbrev pub last_digit : Bool → ℕ → ℤ
last_digit negative base =
    if negative then sub_ℕ 0 ((long_max + 1) % base) else pos (long_max % base)

-- The digit of a character, or `none` at any other character.
unfoldable pub digit_of : ℤ → Option ℤ
unfolding isdigit isalpha tolower ◌-ℤ◌ ◌+ℤ◌
digit_of c =
    if isdigit c
    then some (c -ℤ pos b'0')
    else (if isalpha c then some (tolower c -ℤ pos b'a' +ℤ pos 10) else none)

-- `result = result * base + digit`, a fault when it leaves the range of `long`.
abbrev pub accumulate : ℤ → ℕ → ℤ → Outcome ℤ
accumulate result base digit =
    let next = result *ℤ pos base +ℤ digit in
    if ltb_ℤ (pos long_max) next || ltb_ℤ next (negsuc long_max) then fault else done next

-- The loop: the pointer, the result and the flag `valid` with which it ends.
unfoldable pub digits_loop : ℕ → Memory → Bool → ℕ → Ptr → ℤ → Bool → Outcome (Ptr × ℤ × Bool)
digits_loop zero m negative base str result valid = out_of_fuel
digits_loop (suc f) m negative base str result valid = do
  b ← load m str
  if b == 0 then done (str, result, valid) else (elim (digit_of (to_char b)) [
    | none ↦ done (str, result, valid)
    | some digit ↦
        if leb_ℤ (pos base) digit
        then done (str, result, valid)
        else (if ltb_ℤ result (threshold negative base)
              || (eq_ℤ result (threshold negative base) && ltb_ℤ (last_digit negative base) digit)
            then done (str, limit_of negative, true)
            else (do
              next ← accumulate result base digit
              digits_loop f m negative base (str + 1) next true))
  ])

-- `sign * result`: the negation of `LONG_MIN` overflows.
abbrev pub signed : Bool → ℤ → Outcome ℤ
signed negative result =
    if negative
    then (if eq_ℤ result (negsuc long_max)
        then fault
        else done (sub_ℕ (neg_part result) (pos_part result)))
    else done result

-- What follows the loop: with no digit read the result is 0 and `endptr` the first.
abbrev pub finish : Ptr → Ptr → Bool → ℤ → Bool → Outcome (ℤ × Option Ptr)
finish first at negative result true = do r ← signed negative result; done (r, some at)
finish first at negative result false = do r ← signed negative (pos 0); done (r, some first)

-- The result and the pointer stored at a non-null `endptr`; `none` when nothing is stored there.
unfoldable pub strtol : ℕ → Memory → Ptr → ℤ → Outcome (ℤ × Option Ptr)
unfolding skip_space digits_loop
strtol f m first (negsuc n) = done (pos 0, none)
strtol f m first (pos base) = if base == 1 || ltb 36 base then done (pos 0, none) else do
  str ← skip_space f m first
  b ← load m str
  let negative = b == b'-'
  let str' = if negative || (b == b'+') then str + 1 else str
  if base == 0 then fault else do
    (at, result, valid) ← digits_loop f m negative base str' (pos 0) false
    finish first at negative result valid

-- `long long` has the 64 bits of `long`, and the body of `strtoll` is that of `strtol`.
unfoldable pub strtoll : ℕ → Memory → Ptr → ℤ → Outcome (ℤ × Option Ptr)
unfolding strtol
strtoll f m first base = strtol f m first base
