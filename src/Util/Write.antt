-- ===== src/Util/Write.antt =====
-- The functions of kernel/Source/util/string.c that write zero-terminated strings. A loop that
-- runs to a terminator takes fuel, one unit for each round.
pub mod Copy
pub mod Append
pub mod Bounded
use yerp.Memory.{Memory, Outcome, Ptr, done, load, out_of_fuel, store, ◌>>=◌}
use yerp.Prelude.{if◌then◌else◌, suc, zero, ℕ, ◌+◌, ◌==◌}
use yerp.Prelude.Int.{pos}
use yerp.Util.Block.{fill}
use yerp.Util.Str.{size_max, walk}

-- `while ( ( *d++ = *src++ ) != '\0' ) {}`
unfoldable pub copy_text : ℕ → Memory → Ptr → Ptr → Outcome Memory
copy_text zero m d s = out_of_fuel
copy_text (suc f) m d s = do
  b ← load m s
  m' ← store m d b
  let rest = copy_text f m' (d + 1) (s + 1)
  if b == 0 then done m' else rest

unfoldable pub strcpy : ℕ → Memory → Ptr → Ptr → Outcome (Ptr × Memory)
strcpy f m dest src = do m' ← copy_text f m dest src; done (dest, m')

unfoldable pub strcat : ℕ → Memory → Ptr → Ptr → Outcome (Ptr × Memory)
strcat f m dest src = do d ← walk f m dest; m' ← copy_text f m d src; done (dest, m')

-- `while ( n && ( *d++ = *src++ ) != '\0' ) { --n; }`: the pointer `d`, the count `n` and the
-- memory with which the loop ends. The round that copies the terminator does not decrement `n`.
unfoldable pub copy_max : ℕ → Memory → Ptr → Ptr → Outcome (Ptr × ℕ × Memory)
copy_max zero m d s = done (d, 0, m)
copy_max (suc n) m d s = do
  b ← load m s
  m' ← store m d b
  let rest = copy_max n m' (d + 1) (s + 1)
  if b == 0 then done (d + 1, suc n, m') else rest

-- The second loop pads with `n` zeros.
unfoldable pub strncpy : Memory → Ptr → Ptr → ℕ → Outcome (Ptr × Memory)
strncpy m dest src n = do
  (d, left, m') ← copy_max n m dest src
  m'' ← fill left m' d (pos 0)
  done (dest, m'')

-- `while ( n-- && ( *d++ = *src++ ) != '\0' ) {}`: `n` wraps to `SIZE_MAX` when it is used up.
unfoldable pub append_max : ℕ → Memory → Ptr → Ptr → Outcome (Ptr × ℕ × Memory)
append_max zero m d s = done (d, size_max, m)
append_max (suc n) m d s = do
  b ← load m s
  m' ← store m d b
  let rest = append_max n m' (d + 1) (s + 1)
  if b == 0 then done (d + 1, n, m') else rest

unfoldable pub strncat : ℕ → Memory → Ptr → Ptr → ℕ → Outcome (Ptr × Memory)
strncat f m dest src n = do
  d ← walk f m dest
  (e, left, m') ← append_max n m d src
  if left == size_max then (do m'' ← store m' e 0; done (dest, m'')) else done (dest, m')
