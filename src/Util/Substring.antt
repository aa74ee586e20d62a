-- ===== src/Util/Substring.antt =====
-- `strstr` of kernel/Source/util/string.c. The loops take fuel, one unit for each round.
pub mod First
use yerp.Memory.{Memory, Outcome, Ptr, done, load, nullptr, out_of_fuel, ◌>>=◌}
use yerp.Prelude.{if◌then◌else◌, not, suc, zero, ℕ, ◌&&◌, ◌+◌, ◌==◌}

-- `while ( *h && *n && *h == *n )`, then `*n`: the byte of the needle at which the walk stops.
unfoldable pub match_end : ℕ → Memory → Ptr → Ptr → Outcome ℕ
match_end zero m h n = out_of_fuel
match_end (suc f) m h n = do
  a ← load m h
  b ← load m n
  let rest = match_end f m (h + 1) (n + 1)
  if not (a == 0) && (not (b == 0) && (a == b)) then rest else done b

-- `for ( ; *haystack; haystack++ )`
unfoldable pub strstr_loop : ℕ → Memory → Ptr → Ptr → Outcome Ptr
strstr_loop zero m haystack needle = out_of_fuel
strstr_loop (suc f) m haystack needle = do
  a ← load m haystack
  let rest = strstr_loop f m (haystack + 1) needle
  if a == 0 then done nullptr else (do
    b ← load m needle
    if not (a == b)
        then rest
        else (do e ← match_end (suc f) m haystack needle; if e == 0 then done haystack else rest))

unfoldable pub strstr : ℕ → Memory → Ptr → Ptr → Outcome Ptr
strstr f m haystack needle = do
  b ← load m needle
  if b == 0 then done haystack else strstr_loop f m haystack needle
