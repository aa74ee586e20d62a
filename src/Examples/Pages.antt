-- ===== src/Examples/Pages.antt =====
-- The page allocator at a small free list.
use yerp.Memory.{Ptr, nullptr}
use yerp.Pmm.{Hhdm, Pmm, add_region, allocate, free, no_rounds, page_size, returned, virt_of}
use yerp.Pmm.Chain.{Aliased, IsPmm, listed}
use yerp.Pmm.Client.{Call, call_allocate, call_free, client, client-stack_client, stack_client}
use yerp.Pmm.Cycle.{free-endless}
use yerp.Pmm.Region.{IsFresh, add_region-IsPmm}
use yerp.Pmm.Stack.{allocate-free_moves, free-IsPmm, free_refused}
use yerp.Prelude.{
  List, Option, [], arith, if◌then◌else◌, inl, leb, length, ltb, none, refl, some, true, ℕ, ◌%◌,
  ◌&&◌, ◌+◌, ◌-◌, ◌^◌, ◌∷◌, ◌≡◌, ◌≢◌, ◌≤◌,
}

-- The higher half begins at 1 MiB.
abbrev higher : Hhdm
higher = record { available = true; response_offset = 1048576 }

-- Mapped from the second page to the hundredth, at the physical addresses and in the higher half.
abbrev direct_map : Ptr → Ptr
direct_map a = if leb 1048576 a then a - 1048576 else a

abbrev pages : Ptr → Option Ptr
pages a = if leb 4096 (direct_map a) && ltb (direct_map a) 409600 then some 0 else none

abbrev empty : Pmm
empty = record {
  cell = pages;
  memory_of = direct_map;
  freelist_head = 0;
  freelist_tail = 0;
  total_pages = 0;
  free_pages = 0;
}

-- A page has the same link at both of its addresses.
pages-Aliased : Aliased direct_map pages
pages-Aliased a b e = let same_page = e in rw e

empty-IsPmm : IsPmm empty []
empty-IsPmm = record {
  chain = refl;
  distinct = tt;
  apart = tt;
  aliased = pages-Aliased;
  count = refl;
  bounded = omega arith;
}

-- One free page.
abbrev one : Pmm
one = record {
  cell = pages;
  memory_of = direct_map;
  freelist_head = 8192;
  freelist_tail = 8192;
  total_pages = 1;
  free_pages = 1;
}

one-IsPmm : IsPmm one (8192 ∷ [])
unfolding listed
one-IsPmm = record {
  chain = (refl, omega arith, (0, refl, refl));
  distinct = (refl, tt);
  apart = (refl, tt);
  aliased = pages-Aliased;
  count = refl;
  bounded = omega arith;
}

-- A page is freed twice, three pages are asked for, and one is given back and asked for again.
abbrev calls : List Call
calls =
    call_free 4096
    ∷ call_free 4096
    ∷ call_allocate
    ∷ call_allocate
    ∷ call_allocate
    ∷ call_free 8192
    ∷ call_allocate
    ∷ []

calls_answer :
    stack_client higher (8192 ∷ []) calls
    ≡ ((1052672, 2101248) ∷ (8192, 1056768) ∷ (0, nullptr) ∷ (1056768, 2105344) ∷ [], [])
unfolding listed
calls_answer = refl

client-stack_client_example :
    (s' : Pmm) × (client 9 higher one calls
      ≡ returned ((stack_client higher (8192 ∷ []) calls).0, s'))
    × IsPmm s' (stack_client higher (8192 ∷ []) calls).1
unfolding listed
client-stack_client_example =
    client-stack_client 9 higher one (8192 ∷ []) calls one-IsPmm
      (omega arith, refl, refl, (omega arith, refl, refl, (omega arith, refl, refl, tt)))
      (omega arith) (omega arith)

-- The page of the list is freed while it is free, and then another one.
free-endless_example :
    (s' : Pmm) × (free 3 higher one 8192 ≡ returned s')
    × (s'.freelist_head ≡ 1056768)
    × (s'.cell 1056768 ≡ some 8192)
    × (s'.cell 8192 ≡ some 8192)
    × ((g : ℕ) (other : Ptr)
        → other % page_size ≡ 0
        → (other + 1048576) % 2 ^ 64 ≢ 1056768
        → (other + 1048576) % 2 ^ 64 ≢ 8192
        → free g higher s' other ≡ no_rounds)
free-endless_example =
    free-endless 3 higher one 8192 [] one-IsPmm (omega arith) refl (omega arith) (omega arith) 0
      refl refl

free_refused_example : free 3 higher one 5 ≡ returned one
free_refused_example =
    free_refused 3 higher one 5 (8192 ∷ []) one-IsPmm (omega arith) (inl (omega arith))

allocate-free_moves_example :
    (s' s'' : Pmm) × (free 3 higher one 4096 ≡ returned s')
    × ((got : Ptr) × (allocate higher s' ≡ returned ((got, virt_of higher got), s''))
        × (got ≢ 4096))
    × IsPmm s'' (8192 ∷ [])
unfolding listed
allocate-free_moves_example =
    allocate-free_moves 3 higher one 4096 (8192 ∷ []) one-IsPmm (omega arith) refl (omega arith) 0
      refl refl (omega arith) (omega arith) (omega arith) (omega arith)

empty-IsFresh : IsFresh empty [] 8192 2
unfolding listed
empty-IsFresh a lo hi = (omega arith, (0, ground arith), ground arith, refl)

add_region-IsPmm_example :
    (s' : Pmm) × (ys : List Ptr) × (add_region empty 5000 12000 ≡ returned s')
    × IsPmm s' ys
    × ((a : Ptr) → a % page_size ≡ 0 → 5000 ≤ a → a + page_size ≤ 17000 → listed a ys ≡ true)
    × ((a : Ptr) → listed a [] ≡ true → listed a ys ≡ true)
    × (length ys ≡ 2)
    × (s'.total_pages ≡ 2)
add_region-IsPmm_example =
    add_region-IsPmm empty 5000 12000 [] empty-IsPmm (omega arith) empty-IsFresh (omega arith)
      (omega arith)

free-IsPmm_example :
    (s' : Pmm) × (free 3 higher one 4096 ≡ returned s')
    × IsPmm s' (1052672 ∷ 8192 ∷ [])
    × ((a : Ptr) → direct_map a ≢ 4096 → s'.cell a ≡ pages a)
    × ((a : Ptr) → direct_map a ≡ 4096 → s'.cell a ≡ some 8192)
    × (s'.freelist_head ≡ 1052672)
    × (s'.memory_of ≡ direct_map)
unfolding listed
free-IsPmm_example =
    free-IsPmm 3 higher one 4096 (8192 ∷ []) one-IsPmm (omega arith) refl (omega arith) 0 refl refl
      (omega arith)
