-- ===== src/Pmm/Stack.antt =====
-- `allocate`, `tryAllocate` and `free` on the free list.
use yerp.Memory.{Ptr, nullptr}
use yerp.Pmm.{
  Hhdm, Pmm, allocate, decrement, free, halted, increment, offset, page_size, push, returned,
  set_next, try_allocate, virt_of,
}
use yerp.Pmm.Chain.{
  Chain-set_next, IsPmm, held, listed, listed-held, on_freelist-listed, set_next-Aliased,
}
use yerp.Prelude.{
  Bool-cases, List, [], arith, false, if◌then◌else◌, inl, inr, length, refl, some, suc, true, ℕ,
  ◌%◌, ◌+◌, ◌<◌, ◌==◌, ◌^◌, ◌∷◌, ◌≡◌, ◌≢◌, ◌⊎◌,
}

-- While a page is free, `allocate` returns the first page of the free list as the physical
-- address, with its address in the higher half, and takes exactly this page off the list;
-- it writes to no page.
pub allocate-IsPmm :
    (h : Hhdm) (s : Pmm) (x : Ptr) (xs : List Ptr)
    → IsPmm s (x ∷ xs)
    → (s' : Pmm) × (allocate h s ≡ returned ((x, virt_of h x), s'))
      × IsPmm s' xs
      × (listed x xs ≡ false)
      × (s'.total_pages ≡ s.total_pages)
      × (s'.cell ≡ s.cell)
      × (s'.memory_of ≡ s.memory_of)
unfolding allocate
allocate-IsPmm h s x xs v =
    let (at, positive, (q, e, rest)) = v.chain in
    (
      record s { freelist_head = q; free_pages = decrement s.free_pages },
      ground (arith, at, positive, e),
      record {
        chain = rest;
        distinct = v.distinct.1;
        apart = v.apart.1;
        aliased = v.aliased;
        count = omega (arith, v.count, v.bounded);
        bounded = omega (arith, v.bounded);
      },
      v.distinct.0,
      refl,
      refl,
      refl,
    )

-- With no page free, `allocate` panics, and `tryAllocate` returns two null addresses and leaves
-- the state as it is.
pub allocate-nil :
    (h : Hhdm) (s : Pmm)
    → IsPmm s []
    → (allocate h s ≡ halted) × (try_allocate h s ≡ returned ((0, nullptr), s))
unfolding allocate try_allocate
allocate-nil h s v = (rw v.chain, rw v.chain)

pub push-IsPmm :
    (s : Pmm) (page : Ptr) (xs : List Ptr)
    → IsPmm s xs
    → 0 < page
    → (n : Ptr) → s.cell page ≡ some n
    → held s.memory_of page xs ≡ false
    → suc (length xs) < 2 ^ 52
    → (s' : Pmm) × (push s page ≡ returned s')
      × IsPmm s' (page ∷ xs)
      × ((a : Ptr) → s.memory_of a ≢ s.memory_of page → s'.cell a ≡ s.cell a)
      × ((a : Ptr) → s.memory_of a ≡ s.memory_of page → s'.cell a ≡ some s.freelist_head)
      × (s'.freelist_head ≡ page)
      × (s'.total_pages ≡ s.total_pages)
      × (s'.memory_of ≡ s.memory_of)
unfolding push
push-IsPmm s page xs v positive n e out room =
    let same : (s.memory_of page == s.memory_of page) ≡ true = ground arith in
    (
      record s {
        cell = set_next s.memory_of s.cell page s.freelist_head;
        freelist_head = page;
        freelist_tail = if s.freelist_tail == nullptr then page else s.freelist_tail;
        free_pages = increment s.free_pages;
      },
      rw (e, push),
      record {
        chain = (
          refl,
          positive,
          (
            s.freelist_head,
            rw same,
            Chain-set_next s.memory_of s.cell s.freelist_head page s.freelist_head xs v.chain out,
          ),
        );
        distinct = (listed-held s.memory_of page xs out, v.distinct);
        apart = (out, v.apart);
        aliased = set_next-Aliased s.memory_of s.cell page s.freelist_head v.aliased;
        count = omega (arith, v.count, v.bounded);
        bounded = room;
      },
      (λ a ne. let miss : (s.memory_of a == s.memory_of page) ≡ false = ground arith in rw miss),
      (λ a e. let hit : (s.memory_of a == s.memory_of page) ≡ true = ground arith in rw hit),
      refl,
      refl,
      refl,
    )

-- `free` of an aligned address whose address in the higher half is not 0 and leads to mapped
-- memory that is not on the free list, under any address, puts the address in the higher half in
-- front of the free list. It links the page to the old list under every address that leads to it,
-- and changes no other page. The fuel is for more rounds than the list has pages, which are fewer
-- than `2 ^ 52`.
pub free-IsPmm :
    (f : ℕ) (h : Hhdm) (s : Pmm) (phys : Ptr) (xs : List Ptr)
    → IsPmm s xs
    → length xs < f
    → phys % page_size ≡ 0
    → 0 < (phys + offset h) % 2 ^ 64
    → (n : Ptr) → s.cell ((phys + offset h) % 2 ^ 64) ≡ some n
    → held s.memory_of ((phys + offset h) % 2 ^ 64) xs ≡ false
    → suc (length xs) < 2 ^ 52
    → (s' : Pmm) × (free f h s phys ≡ returned s')
      × IsPmm s' ((phys + offset h) % 2 ^ 64 ∷ xs)
      × ((a : Ptr)
          → s.memory_of a ≢ s.memory_of ((phys + offset h) % 2 ^ 64)
          → s'.cell a ≡ s.cell a)
      × ((a : Ptr)
          → s.memory_of a ≡ s.memory_of ((phys + offset h) % 2 ^ 64)
          → s'.cell a ≡ some s.freelist_head)
      × (s'.freelist_head ≡ (phys + offset h) % 2 ^ 64)
      × (s'.memory_of ≡ s.memory_of)
unfolding free
free-IsPmm f h s phys xs v fuel aligned positive n e out room =
    let page = (phys + offset h) % 2 ^ 64 in
    let (s', run, v', keep, written, head, total, kept) =
      push-IsPmm s page xs v positive n e out room in
    let off_list = listed-held s.memory_of page xs out in
    let test : (phys % page_size == 0) ≡ true = ground arith in
    (
      s',
      rw (test, on_freelist-listed f s.cell s.freelist_head page xs v.chain fuel, off_list) run,
      v',
      keep,
      written,
      head,
      kept,
    )

-- `free` of an address that is not a multiple of the page size, and of one whose address in the
-- higher half is on the free list, leaves the state as it is, with fuel for more rounds than the
-- free list has pages. A page that is on the list under another address is not covered.
pub free_refused :
    (f : ℕ) (h : Hhdm) (s : Pmm) (phys : Ptr) (xs : List Ptr)
    → IsPmm s xs
    → length xs < f
    → (phys % page_size ≢ 0) ⊎ (listed ((phys + offset h) % 2 ^ 64) xs ≡ true)
    → free f h s phys ≡ returned s
unfolding free
free_refused f h s phys xs v fuel (inl odd) =
    let test : (phys % page_size == 0) ≡ false = ground arith in rw test
free_refused f h s phys xs v fuel (inr twice) = elim (Bool-cases (phys % page_size == 0)) [
  | inl e ↦ rw (e, on_freelist-listed f s.cell s.freelist_head _ xs v.chain fuel, twice)
  | inr e ↦ rw e
]

-- A page that is freed and allocated again comes back under another physical address when the
-- higher half has an offset that is not a multiple of `2 ^ 64`: `free` links the page by its
-- address in the higher half, and `allocate` takes the link for the physical address. The page is
-- aligned, mapped in the higher half at an address that is not 0, and not on the free list under
-- any address before.
pub allocate-free_moves :
    (f : ℕ) (h : Hhdm) (s : Pmm) (phys : Ptr) (xs : List Ptr)
    → IsPmm s xs
    → length xs < f
    → phys % page_size ≡ 0
    → 0 < (phys + offset h) % 2 ^ 64
    → (n : Ptr) → s.cell ((phys + offset h) % 2 ^ 64) ≡ some n
    → held s.memory_of ((phys + offset h) % 2 ^ 64) xs ≡ false
    → suc (length xs) < 2 ^ 52
    → phys < 2 ^ 64
    → 0 < offset h
    → offset h < 2 ^ 64
    → (s' s'' : Pmm) × (free f h s phys ≡ returned s')
      × ((got : Ptr) × (allocate h s' ≡ returned ((got, virt_of h got), s'')) × (got ≢ phys))
      × IsPmm s'' xs
allocate-free_moves f h s phys xs v fuel aligned positive n e out room small some_offset fits =
    let (s', run, v', _, _, _, _) = free-IsPmm f h s phys xs v fuel aligned positive n e out room in
    let (s'', run', v'', gone, total, cells, _) = allocate-IsPmm h s' _ xs v' in
    (s', s'', run, ((phys + offset h) % 2 ^ 64, run', omega arith), v'')
