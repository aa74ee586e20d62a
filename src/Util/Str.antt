-- ===== src/Util/Str.antt =====
-- The functions of kernel/Source/util/string.c on zero-terminated strings that write nothing.
-- A loop that runs to a terminator takes fuel, one unit for each round. Two `char`s are equal
-- exactly when their bytes are; a comparison with an `int` reads the byte as a signed `char`.
pub mod Length
pub mod Order
pub mod Find
pub mod Sets
use yerp.Memory.{Memory, Outcome, Ptr, done, load, nullptr, out_of_fuel, ◌>>=◌}
use yerp.Prelude.{Bool, false, if◌then◌else◌, not, suc, true, zero, ℕ, ◌&&◌, ◌+◌, ◌-◌, ◌==◌, ◌^◌}
use yerp.Prelude.Int.{eq_ℤ, pos, sub_ℕ, to_char, ℤ}

-- `while ( *p ) { p++; }`
unfoldable pub walk : ℕ → Memory → Ptr → Outcome Ptr
walk zero m p = out_of_fuel
walk (suc f) m p = do b ← load m p; let rest = walk f m (p + 1); if b == 0 then done p else rest

unfoldable pub strlen : ℕ → Memory → Ptr → Outcome ℕ
strlen f m s = do p ← walk f m s; done (p - s)

abbrev pub size_max : ℕ
size_max = 2 ^ 64 - 1

-- `while ( *p && maxlen-- ) { p++; }`: the byte at `p` is read before `maxlen` is tested.
unfoldable pub walk_max : ℕ → Memory → Ptr → Outcome Ptr
walk_max zero m p = do b ← load m p; done p
walk_max (suc k) m p = do b ← load m p; if b == 0 then done p else walk_max k m (p + 1)

unfoldable pub strnlen : ℕ → Memory → Ptr → ℕ → Outcome ℕ
strnlen f m s maxlen = do
  p ← (if maxlen == size_max then walk f m s else walk_max maxlen m s)
  done (p - s)

-- The difference of two bytes as an `int`.
unfoldable pub strcmp : ℕ → Memory → Ptr → Ptr → Outcome ℤ
strcmp zero m s1 s2 = out_of_fuel
strcmp (suc f) m s1 s2 = do
  a ← load m s1
  b ← load m s2
  let rest = strcmp f m (s1 + 1) (s2 + 1)
  if not (a == 0) && (a == b) then rest else done (sub_ℕ a b)

-- The loop of `strncmp` with `n` bytes left.
unfoldable pub strncmp_loop : ℕ → Memory → Ptr → Ptr → Outcome ℤ
strncmp_loop zero m s1 s2 = do a ← load m s1; b ← load m s2; done (sub_ℕ a b)
strncmp_loop (suc n) m s1 s2 = do
  a ← load m s1
  b ← load m s2
  let rest = strncmp_loop n m (s1 + 1) (s2 + 1)
  if not (a == 0) && (a == b) && not (n == 0) then rest else done (sub_ℕ a b)

unfoldable pub strncmp : Memory → Ptr → Ptr → ℕ → Outcome ℤ
strncmp m s1 s2 n = if n == 0 then done (pos 0) else strncmp_loop n m s1 s2

unfoldable pub strchr : ℕ → Memory → Ptr → ℤ → Outcome Ptr
strchr zero m s c = out_of_fuel
strchr (suc f) m s c = do
  b ← load m s
  let rest = strchr f m (s + 1) c
  if b == 0
      then (if eq_ℤ c (pos 0) then done s else done nullptr)
      else (if eq_ℤ (to_char b) c then done s else rest)

-- `do { … } while ( *s++ )` with the last match so far.
unfoldable pub strrchr_loop : ℕ → Memory → Ptr → ℤ → Ptr → Outcome Ptr
strrchr_loop zero m s c last = out_of_fuel
strrchr_loop (suc f) m s c last = do
  b ← load m s
  let last' = if eq_ℤ (to_char b) c then s else last
  let rest = strrchr_loop f m (s + 1) c last'
  if b == 0 then done last' else rest

unfoldable pub strrchr : ℕ → Memory → Ptr → ℤ → Outcome Ptr
strrchr f m s c = strrchr_loop f m s c nullptr

-- `while ( *a && *a != *p ) { a++; }`: the byte at which the walk over the set stops.
unfoldable pub stop_byte : ℕ → Memory → Ptr → ℕ → Outcome ℕ
stop_byte zero m a x = out_of_fuel
stop_byte (suc f) m a x = do
  b ← load m a
  let rest = stop_byte f m (a + 1) x
  if not (b == 0) && not (b == x) then rest else done b

-- The outer loop of `strspn`: the pointer at which it stops.
unfoldable pub span : ℕ → Memory → Ptr → Ptr → Outcome Ptr
span zero m p accept = out_of_fuel
span (suc f) m p accept = do
  x ← load m p
  let rest = span f m (p + 1) accept
  if x == 0 then done p else do b ← stop_byte (suc f) m accept x; if b == 0 then done p else rest

unfoldable pub strspn : ℕ → Memory → Ptr → Ptr → Outcome ℕ
strspn f m s accept = do p ← span f m s accept; done (p - s)

-- `while ( *r ) { if ( *p == *r ) …; r++; }`: whether the set holds the byte.
unfoldable pub holds_byte : ℕ → Memory → Ptr → ℕ → Outcome Bool
holds_byte zero m r x = out_of_fuel
holds_byte (suc f) m r x = do
  b ← load m r
  let rest = holds_byte f m (r + 1) x
  if b == 0 then done false else (if x == b then done true else rest)

unfoldable pub cspan : ℕ → Memory → Ptr → Ptr → Outcome Ptr
cspan zero m p reject = out_of_fuel
cspan (suc f) m p reject = do
  x ← load m p
  let rest = cspan f m (p + 1) reject
  if x == 0 then done p else do hit ← holds_byte (suc f) m reject x; if hit then done p else rest

unfoldable pub strcspn : ℕ → Memory → Ptr → Ptr → Outcome ℕ
strcspn f m s reject = do p ← cspan f m s reject; done (p - s)

unfoldable pub strpbrk : ℕ → Memory → Ptr → Ptr → Outcome Ptr
strpbrk zero m s accept = out_of_fuel
strpbrk (suc f) m s accept = do
  x ← load m s
  let rest = strpbrk f m (s + 1) accept
  if x == 0
      then done nullptr
      else do hit ← holds_byte (suc f) m accept x; if hit then done s else rest
