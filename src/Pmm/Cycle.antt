-- ===== src/Pmm/Cycle.antt =====
-- `free` of kernel/Source/core/pmm.hh of a page that is in front of the free list under its
-- physical address: the search for a double free compares addresses, and does not see it.
use mathlib.Core.Path.{subst}
use yerp.Memory.{Ptr, nullptr}
use yerp.Pmm.{
  Hhdm, Pmm, free, increment, no_rounds, offset, on_freelist, page_size, push, returned, set_next,
}
use yerp.Pmm.Chain.{IsPmm, listed, listed-held, on_freelist-listed}
use yerp.Prelude.{
  List, Option, arith, false, if◌then◌else◌, length, map, refl, some, suc, sym, true, zero, ℕ, ◌%◌,
  ◌+◌, ◌<◌, ◌==◌, ◌^◌, ◌∷◌, ◌≡◌, ◌≢◌,
}

-- A search along pages of which the second leads to itself does not end.
on_freelist-stuck :
    (f : ℕ) (cell : Ptr → Option Ptr) (p page : Ptr)
    → cell p ≡ some p
    → 0 < p
    → p ≢ page
    → on_freelist f cell p page ≡ no_rounds
unfolding on_freelist
on_freelist-stuck zero cell p page e positive ne = refl
on_freelist-stuck (suc f) cell p page e positive ne =
    let not_null : (p == nullptr) ≡ false = ground arith in
    let other : (p == page) ≡ false = ground arith in
    rw (on_freelist, not_null, other, e) (on_freelist-stuck f cell p page e positive ne)

on_freelist-second_stuck :
    (f : ℕ) (cell : Ptr → Option Ptr) (p q page : Ptr)
    → cell p ≡ some q
    → cell q ≡ some q
    → 0 < p
    → 0 < q
    → p ≢ page
    → q ≢ page
    → on_freelist f cell p page ≡ no_rounds
unfolding on_freelist
on_freelist-second_stuck zero cell p q page e e' positive positive' ne ne' = refl
on_freelist-second_stuck (suc f) cell p q page e e' positive positive' ne ne' =
    let not_null : (p == nullptr) ≡ false = ground arith in
    let other : (p == page) ≡ false = ground arith in
    rw (on_freelist, not_null, other, e) (on_freelist-stuck f cell q page e' positive' ne')

free-stuck :
    (f : ℕ) (h : Hhdm) (s : Pmm) (phys : Ptr)
    → phys % page_size ≡ 0
    → on_freelist f s.cell s.freelist_head ((phys + offset h) % 2 ^ 64) ≡ no_rounds
    → free f h s phys ≡ no_rounds
unfolding free
free-stuck f h s phys aligned stuck =
    let test : (phys % page_size == 0) ≡ true = ground arith in rw (test, stuck)

-- When the first page of the free list is linked by an aligned physical address, and its address in
-- the higher half is another one, not 0, that is mapped to the same memory, `free` of this physical
-- address is not refused, with fuel for more rounds than the free list has pages: the address in the
-- higher half is put in front, and as both addresses are one page, the page then leads to itself.
-- From there on `free` of any aligned address ends for no fuel, unless its address in the higher
-- half is one of these two.
pub free-endless :
    (f : ℕ) (h : Hhdm) (s : Pmm) (phys : Ptr) (xs : List Ptr)
    → IsPmm s (phys ∷ xs)
    → suc (length xs) < f
    → phys % page_size ≡ 0
    → 0 < (phys + offset h) % 2 ^ 64
    → (phys + offset h) % 2 ^ 64 ≢ phys
    → (n : Ptr) → s.cell ((phys + offset h) % 2 ^ 64) ≡ some n
    → s.memory_of ((phys + offset h) % 2 ^ 64) ≡ s.memory_of phys
    → (s' : Pmm) × (free f h s phys ≡ returned s')
      × (s'.freelist_head ≡ (phys + offset h) % 2 ^ 64)
      × (s'.cell ((phys + offset h) % 2 ^ 64) ≡ some phys)
      × (s'.cell phys ≡ some phys)
      × ((g : ℕ) (other : Ptr)
          → other % page_size ≡ 0
          → (other + offset h) % 2 ^ 64 ≢ (phys + offset h) % 2 ^ 64
          → (other + offset h) % 2 ^ 64 ≢ phys
          → free g h s' other ≡ no_rounds)
unfolding free push listed
free-endless f h s phys xs v fuel aligned positive ne n e one =
    let page = (phys + offset h) % 2 ^ 64 in
    let (at, positive', _) = v.chain in
    let out : listed page xs ≡ false =
      listed-held s.memory_of page xs
        (subst (λ k. listed k (map s.memory_of xs) ≡ false) (sym one) v.apart.0) in
    let out' : listed page (phys ∷ xs) ≡ false = ground arith in
    let test : (phys % page_size == 0) ≡ true = ground arith in
    let hit : (s.memory_of page == s.memory_of page) ≡ true = ground arith in
    let hit' : (s.memory_of phys == s.memory_of page) ≡ true = ground arith in
    let s' = record s {
      cell = set_next s.memory_of s.cell page s.freelist_head;
      freelist_head = page;
      freelist_tail = if s.freelist_tail == nullptr then page else s.freelist_tail;
      free_pages = increment s.free_pages;
    } in
    let to_phys : s'.cell page ≡ some phys = rw (hit, at) in
    let to_itself : s'.cell phys ≡ some phys = rw (hit', at) in
    (
      s',
      rw (
        test,
        on_freelist-listed f s.cell s.freelist_head page (phys ∷ xs) v.chain fuel,
        out',
        push,
        e,
      ),
      refl,
      to_phys,
      to_itself,
      (λ g other aligned' apart apart'. free-stuck g h s' other aligned' (
          on_freelist-second_stuck g s'.cell page phys ((other + offset h) % 2 ^ 64) to_phys
            to_itself positive positive' (omega arith) (omega arith))),
    )
