-- ===== src/Examples/Regions.antt =====
-- `reserveRegion` and `init` at a small memory.
-- Mapped from 4096 to 2 MiB.
use yerp.Memory.{Ptr}
use yerp.Pmm.{Pmm, returned, set_next}
use yerp.Pmm.Chain.{IsPmm, listed}
use yerp.Pmm.Init.{MemmapResponse, init}
use yerp.Pmm.Init.Map.{IsMemoryMap, init-IsPmm, taken_before}
use yerp.Prelude.{
  List, Option, [], ap, arith, if◌then◌else◌, leb, ltb, none, refl, some, ◌&&◌, ◌==◌, ◌≡◌,
}

abbrev two_mib : Ptr → Option Ptr
two_mib a = if leb 4096 a && ltb a 2097152 then some 0 else none

abbrev booted : Pmm
booted = record {
  cell = two_mib;
  memory_of = λ a. a;
  freelist_head = 0;
  freelist_tail = 0;
  total_pages = 0;
  free_pages = 0;
}

booted-IsPmm : IsPmm booted []
booted-IsPmm = record {
  chain = refl;
  distinct = tt;
  apart = tt;
  aliased = λ a b e. ap two_mib e;
  count = refl;
  bounded = omega arith;
}

-- The free list of the pages 8192 and 16384.
abbrev two_pages : Pmm
two_pages = record booted {
  cell = set_next (λ a. a) (set_next (λ a. a) two_mib 8192 16384) 16384 0;
  freelist_head = 8192;
  freelist_tail = 16384;
  total_pages = 2;
  free_pages = 2;
}

-- The two pages from 1 MiB on are usable, and the first MiB, which is left out; the third entry
-- is not usable.
abbrev small_map : MemmapResponse
small_map = record {
  revision = 1;
  entry_count = 3;
  entries = λ i.
      if i == 0
      then record { base = 4096; length = 4096; entry_type = 0 }
      else if i == 1
      then record { base = 1044480; length = 12288; entry_type = 0 }
      else record { base = 1200128; length = 4096; entry_type = 1 };
}

small_map-IsMemoryMap : IsMemoryMap 0 small_map booted
small_map-IsMemoryMap = record {
  revised = refl;
  entered = omega arith;
  fits = λ i lt kind. ground arith;
  mapped = λ i lt a h. ((0, ground arith), refl);
  apart = λ i j lt lt' a h. ground arith;
  bounded = omega arith;
  counted = omega arith;
}

init-IsPmm_example :
    (s' : Pmm) × (ys : List Ptr) × (init 0 (some small_map) booted ≡ returned s')
    × IsPmm s' ys
    × ((b : Ptr) → listed b ys ≡ taken_before 0 small_map 3 b)
    × (s'.free_pages ≡ 2)
    × (s'.total_pages ≡ 2)
init-IsPmm_example = init-IsPmm 0 small_map booted booted-IsPmm small_map-IsMemoryMap
