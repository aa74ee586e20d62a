-- ===== src/Util/Number.antt =====
-- `itoa`, `ltoa`, `lltoa`, `atoi`, `atol` and `atoll` of kernel/Source/util/string.c, and the
-- `reverse` they use. Each trio has one body over the largest value of its type; a signed overflow
-- and a division by zero are faults. The loops take fuel, one unit for each round.
pub mod Text
pub mod Reverse
pub mod Write
pub mod Read
pub mod RoundTrip
use yerp.Memory.{Memory, Outcome, Ptr, done, fault, load, out_of_fuel, store, ◌>>=◌}
use yerp.Prelude.{
  Bool, false, if◌then◌else◌, length, ltb, suc, true, zero, ℕ, ◌%◌, ◌&&◌, ◌*◌, ◌+◌, ◌-◌, ◌/◌, ◌==◌,
  ◌^◌, ◌||◌,
}
use yerp.Prelude.Int.{
  eq_ℤ, ltb_ℤ, neg_part, negsuc, pos, pos_part, sub_ℕ, to_char, to_uchar, ℤ, ◌+ℤ◌, ◌-ℤ◌,
}
use yerp.Util.Ctype.{isdigit}
use yerp.Util.Strtol.{long_max, skip_space}

abbrev pub int_max : ℕ
int_max = 2 ^ 31 - 1

abbrev pub longlong_max : ℕ
longlong_max = 2 ^ 63 - 1

-- `a / b` and `a % b` in C: the quotient is rounded towards zero and the remainder has the sign
-- of `a`.
unfoldable pub quot : ℤ → ℤ → ℤ
quot (pos a) (pos b) = pos (a / b)
quot (pos a) (negsuc b) = sub_ℕ 0 (a / suc b)
quot (negsuc a) (pos b) = sub_ℕ 0 (suc a / b)
quot (negsuc a) (negsuc b) = pos (suc a / suc b)

unfoldable pub rem : ℤ → ℤ → ℤ
rem (pos a) b = pos (a % (pos_part b + neg_part b))
rem (negsuc a) b = sub_ℕ 0 (suc a % (pos_part b + neg_part b))

-- A result of the signed type whose largest value is `max`.
abbrev pub in_range : ℕ → ℤ → Outcome ℤ
in_range max n = if ltb_ℤ (pos max) n || ltb_ℤ n (negsuc max) then fault else done n

-- The body of the loop of `reverse`, the bytes at `start` and `end` exchanged.
unfoldable pub swap_chars : Memory → Ptr → ℕ → ℕ → Outcome Memory
swap_chars m str start end = do
  temp ← load m (str + start)
  other ← load m (str + end)
  m' ← store m (str + start) other
  store m' (str + end) temp

-- `while ( start < end )`
unfoldable pub reverse_loop : ℕ → Memory → Ptr → ℕ → ℕ → Outcome Memory
reverse_loop zero m str start end = out_of_fuel
reverse_loop (suc f) m str start end =
    if ltb start end
    then (do m' ← swap_chars m str start end; reverse_loop f m' str (start + 1) (end - 1))
    else done m

-- With the length 0 `end` is -1 in the source, and the loop ends at once there too.
unfoldable pub reverse_text : ℕ → Memory → Ptr → ℕ → Outcome Memory
reverse_text f m str length = reverse_loop f m str 0 (length - 1)

-- `( rem > 9 ) ? ( rem - 10 ) + 'a' : rem + '0'`, stored in a `char`.
unfoldable pub digit_char : ℤ → ℕ
unfolding ◌+ℤ◌ ◌-ℤ◌
digit_char r = to_uchar (if ltb_ℤ (pos 9) r then r -ℤ pos 10 +ℤ pos b'a' else r +ℤ pos b'0')

-- `while ( num != 0 )`: the memory and the index `i` after the loop.
unfoldable pub write_digits : ℕ → ℕ → ℤ → Memory → Ptr → ℕ → ℤ → Outcome (Memory × ℕ)
write_digits zero max base m str i num = out_of_fuel
write_digits (suc f) max base m str i num =
    if eq_ℤ num (pos 0)
    then done (m, i)
    else (if eq_ℤ base (pos 0) then fault else (do
      m' ← store m (str + i) (digit_char (rem num base))
      num' ← in_range max (quot num base)
      write_digits f max base m' str (i + 1) num'))

-- `if ( isNegative ) str[ i++ ] = '-'; str[ i ] = '\0'; return reverse( str, i );`
unfoldable pub end_text : ℕ → Memory → Ptr → ℕ → Bool → Outcome Memory
end_text f m str i true = do
  m' ← store m (str + i) b'-'
  m'' ← store m' (str + (i + 1)) 0
  reverse_text f m'' str (i + 1)
end_text f m str i false = do m' ← store m (str + i) 0; reverse_text f m' str i

unfoldable pub write_zero : Memory → Ptr → Outcome Memory
write_zero m str = do m' ← store m (str + 0) b'0'; store m' (str + 1) 0

-- The memory after the call; the pointer returned is `str`.
unfoldable pub write_number : ℕ → ℕ → Memory → ℤ → Ptr → ℤ → Outcome Memory
write_number max f m num str base =
    if eq_ℤ num (pos 0)
    then write_zero m str
    else (let is_negative = ltb_ℤ num (pos 0) && eq_ℤ base (pos 10) in
        do
          num' ←
              (if is_negative then in_range max (sub_ℕ (neg_part num) (pos_part num)) else done num)
          (m', i) ← write_digits f max base m str 0 num'
          end_text f m' str i is_negative)

unfoldable pub itoa : ℕ → Memory → ℤ → Ptr → ℤ → Outcome Memory
itoa f m num str base = write_number int_max f m num str base

unfoldable pub ltoa : ℕ → Memory → ℤ → Ptr → ℤ → Outcome Memory
ltoa f m num str base = write_number long_max f m num str base

unfoldable pub lltoa : ℕ → Memory → ℤ → Ptr → ℤ → Outcome Memory
lltoa f m num str base = write_number longlong_max f m num str base

-- `while ( isdigit( *str ) )`: `res` never becomes negative.
unfoldable pub read_digits : ℕ → ℕ → Memory → Ptr → ℕ → Outcome ℕ
unfolding isdigit
read_digits zero max m str res = out_of_fuel
read_digits (suc f) max m str res = do
  b ← load m str
  let next = res * 10 + (b - b'0')
  let rest = read_digits f max m (str + 1) next
  if isdigit (to_char b) then (if ltb max next then fault else rest) else done res

unfoldable pub read_number : ℕ → ℕ → Memory → Ptr → Outcome ℤ
read_number max f m first = do
  str ← skip_space f m first
  b ← load m str
  let negative = b == b'-'
  let str' = if negative || (b == b'+') then str + 1 else str
  res ← read_digits f max m str' 0
  done (if negative then sub_ℕ 0 res else pos res)

unfoldable pub atoi : ℕ → Memory → Ptr → Outcome ℤ
atoi f m str = read_number int_max f m str

unfoldable pub atol : ℕ → Memory → Ptr → Outcome ℤ
atol f m str = read_number long_max f m str

unfoldable pub atoll : ℕ → Memory → Ptr → Outcome ℤ
atoll f m str = read_number longlong_max f m str
