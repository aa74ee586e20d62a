-- ===== src/Examples/Blocks.antt =====
-- The block functions at a small memory.
use yerp.Memory.{IsMapped, Memory, done, load, store}
use yerp.Memory.Region.{moved}
use yerp.Prelude.{arith, if◌then◌else◌, leb, ltb, none, refl, some, ℕ, ◌&&◌, ◌+◌, ◌-◌, ◌≡◌, ◌≤◌}
use yerp.Util.Block.{copy_backward, memmove}
use yerp.Util.Block.Copy.{memmove-moved}

-- Ten bytes from address 100 on, the byte at `a` being `a - 100 + 1`.
abbrev ten : Memory
ten a = if leb 100 a && ltb a 110 then some (a - 99) else none

ten-IsMapped : (p n : ℕ) → 100 ≤ p → p + n ≤ 110 → IsMapped ten p n
ten-IsMapped p n lo hi a from to = ground arith

memmove-moved_example : memmove ten 102 101 5 ≡ done (102, moved ten 102 101 5)
memmove-moved_example =
    memmove-moved ten 102 101 5 (ten-IsMapped 101 5 (omega arith) (omega arith))
      (ten-IsMapped 102 5 (omega arith) (omega arith))

-- A backward copy over its own source.
overlap : (m' : Memory) × (memmove ten 102 101 3 ≡ done (102, m')) × (m' 104 ≡ some 4)
unfolding memmove copy_backward load store
overlap = (_, refl, refl)
