-- ===== src/Pmm/PageSet.antt =====
-- The pages of a block of memory, as tests on addresses.
use yerp.Memory.{Ptr}
use yerp.Pmm.{page_size}
use yerp.Pmm.Region.{pages_in}
use yerp.Prelude.{Bool, arith, leb, ltb, suc, ℕ, ◌%◌, ◌&&◌, ◌*◌, ◌+◌, ◌-◌, ◌/◌, ◌==◌, ◌||◌, ◌≡◌}

-- `b` is one of the `n` page addresses from `addr` on.
abbrev pub in_pages : Ptr → Ptr → ℕ → Bool
in_pages b addr n = leb addr b && ltb b (addr + n * page_size) && ((b - addr) % page_size == 0)

pub in_pages-suc :
    (b addr n : ℕ) → in_pages b addr (suc n) ≡ ((addr == b) || in_pages b (addr + page_size) n)
in_pages-suc b addr n = ground arith

-- `b` is a whole page of the block.
abbrev pub page_of : ℕ → ℕ → Ptr → Bool
page_of base size b = (b % page_size == 0) && (leb base b && leb (b + page_size) (base + size))

pub in_pages-page_of :
    (base size b : ℕ)
    → in_pages b ((base + (page_size - 1)) / page_size * page_size) (pages_in base size)
      ≡ page_of base size b
in_pages-page_of base size b = ground arith
