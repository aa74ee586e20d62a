-- ===== src/Pmm/Reserve.antt =====
-- `reserveRegion` of kernel/Source/core/pmm.hh, which takes the pages of a block off the free list.
pub mod Unlink
pub mod Region
use yerp.Memory.{Ptr, nullptr}
use yerp.Pmm.{
  Pmm, Run, align_down, align_up, crashed, decrement, halted, no_rounds, page_size, returned,
  set_next,
}
use yerp.Prelude.{
  false, if◌then◌else◌, leb, length, none, some, suc, true, zero, ℕ, ◌%◌, ◌+◌, ◌-◌, ◌/◌, ◌==◌, ◌^◌,
}

-- The loop over the free list for one address; `prev` is the page before `it`, or null.
unfoldable pub unlink : ℕ → Pmm → Ptr → Ptr → Ptr → Run Pmm
unlink zero s prev it addr = no_rounds
unlink (suc f) s prev it addr = elim (it == nullptr) [
  | true ↦ returned s
  | false ↦ elim (s.cell it) [
    | none ↦ crashed
    | some next ↦ elim (it == addr) [
      | true ↦ elim (prev == nullptr) [
        | true ↦
            unlink f (record s { freelist_head = next; free_pages = decrement s.free_pages })
              nullptr next addr
        | false ↦
            unlink f
              (record s {
                cell = set_next s.memory_of s.cell prev next;
                free_pages = decrement s.free_pages;
              })
              prev next addr
      ]
      | false ↦ unlink f s it next addr
    ]
  ]
]

-- The loop over `n` addresses from `addr` on, each with fuel for `f` rounds.
unfoldable pub reserve_pages : ℕ → ℕ → Pmm → Ptr → Run Pmm
reserve_pages f zero s addr = returned s
reserve_pages f (suc n) s addr = elim (unlink f s nullptr s.freelist_head addr) [
  | returned s' ↦ reserve_pages f n s' (addr + page_size)
  | halted ↦ halted
  | crashed ↦ crashed
  | no_rounds ↦ no_rounds
]

unfoldable pub reserve_region : ℕ → Pmm → ℕ → ℕ → Run Pmm
unfolding reserve_pages
reserve_region f s base length =
    let region_start = align_up base page_size in
    let region_end = align_down ((base + length) % 2 ^ 64) page_size in
    if leb region_end region_start
    then returned s
    else reserve_pages f ((region_end - region_start) / page_size) s region_start
