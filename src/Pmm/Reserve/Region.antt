-- ===== src/Pmm/Reserve/Region.antt =====
-- `reserveRegion` takes exactly the pages of its block off the free list.
use yerp.Memory.{Ptr}
use yerp.Pmm.{Pmm}
use yerp.Pmm.Chain.{listed}
use yerp.Prelude.{Bool, List, not, ◌&&◌, ◌≡◌}

-- What is left of the list `xs`, as a test.
abbrev Left : List Ptr → (Ptr → Bool) → List Ptr → Type 0
Left xs taken ys = (b : Ptr) → listed b ys ≡ (listed b xs && not (taken b))
