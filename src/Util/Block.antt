-- ===== src/Util/Block.antt =====
-- The functions of kernel/Source/util/string.c on blocks of bytes. `n` is a `size_t`, and
-- `while ( n-- )` makes exactly `n` rounds. An `unsigned char*` reads bytes from 0 to 255.
pub mod Compare
pub mod Copy
pub mod Fill
pub mod Find
use yerp.Memory.{Memory, Outcome, Ptr, done, load, nullptr, store, ◌>>=◌}
use yerp.Prelude.{if◌then◌else◌, ltb, suc, zero, ℕ, ◌+◌, ◌-◌, ◌==◌}
use yerp.Prelude.Int.{eq_ℤ, pos, sub_ℕ, to_uchar, ℤ}

-- `while ( n-- ) { *d++ = *s++; }`
unfoldable pub copy_forward : ℕ → Memory → Ptr → Ptr → Outcome Memory
copy_forward zero m d s = done m
copy_forward (suc n) m d s = do b ← load m s; m' ← store m d b; copy_forward n m' (d + 1) (s + 1)

-- `while ( n-- ) { *--d = *--s; }`
unfoldable pub copy_backward : ℕ → Memory → Ptr → Ptr → Outcome Memory
copy_backward zero m d s = done m
copy_backward (suc n) m d s = do
  b ← load m (s - 1)
  m' ← store m (d - 1) b
  copy_backward n m' (d - 1) (s - 1)

unfoldable pub memcpy : Memory → Ptr → Ptr → ℕ → Outcome (Ptr × Memory)
memcpy m dest src n = do m' ← copy_forward n m dest src; done (dest, m')

unfoldable pub memmove : Memory → Ptr → Ptr → ℕ → Outcome (Ptr × Memory)
memmove m dest src n = do
  m' ← (if ltb dest src then copy_forward n m dest src else copy_backward n m (dest + n) (src + n))
  done (dest, m')

-- `while ( n-- ) { *p++ = c; }`: the store converts `c` to an `unsigned char`.
unfoldable pub fill : ℕ → Memory → Ptr → ℤ → Outcome Memory
fill zero m p c = done m
fill (suc n) m p c = do m' ← store m p (to_uchar c); fill n m' (p + 1) c

unfoldable pub memset : Memory → Ptr → ℤ → ℕ → Outcome (Ptr × Memory)
memset m s c n = do m' ← fill n m s c; done (s, m')

-- The result is the difference of two bytes as an `int`.
unfoldable pub memcmp : ℕ → Memory → Ptr → Ptr → Outcome ℤ
memcmp zero m s1 s2 = done (pos 0)
memcmp (suc n) m s1 s2 = do
  a ← load m s1
  b ← load m s2
  if a == b then memcmp n m (s1 + 1) (s2 + 1) else done (sub_ℕ a b)

-- `*p == c` compares a byte with the `int` `c`, which is not converted to an `unsigned char`.
unfoldable pub memchr : ℕ → Memory → Ptr → ℤ → Outcome Ptr
memchr zero m s c = done nullptr
memchr (suc n) m s c = do b ← load m s; if eq_ℤ (pos b) c then done s else memchr n m (s + 1) c
