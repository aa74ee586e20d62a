-- ===== src/Util/Token.antt =====
-- `strtok` of kernel/Source/util/string.c. The static pointer `last` is an argument and a result.
pub mod Split
use yerp.Memory.{Memory, Outcome, Ptr, done, load, nullptr, store, ◌>>=◌}
use yerp.Prelude.{if◌then◌else◌, ℕ, ◌+◌, ◌==◌}
use yerp.Util.Str.{strpbrk, strspn}

-- The token or a null pointer, `last` after the call, and the memory.
unfoldable pub strtok : ℕ → Memory → Ptr → Ptr → Ptr → Outcome (Ptr × Ptr × Memory)
strtok f m last str delim =
    let start_at = if str == nullptr then last else str in
    if start_at == nullptr then done (nullptr, last, m) else (do
      n ← strspn f m start_at delim
      b ← load m (start_at + n)
      if b == 0 then done (nullptr, nullptr, m) else (do
        token_end ← strpbrk f m (start_at + n) delim
        if token_end == nullptr
            then done (start_at + n, nullptr, m)
            else (do m' ← store m token_end 0; done (start_at + n, token_end + 1, m'))))
