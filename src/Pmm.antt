-- ===== src/Pmm.antt =====
-- `PhysicalMemoryManager` of kernel/Source/core/pmm.hh, with the branches that
-- kernel/Source/constants.h turns on: the free list is a stack (`kPmmUseFifo` is off), `free`
-- looks for a double free and only warns (`kDebugMode` on, `kPanicOnError` off), and no page is
-- zeroed. What `Fmt::printf` prints is not part of the state. A `FreePage*` is an address; a
-- page's `flags` are written and never read, and are left out.
pub mod Chain
pub mod Stack
pub mod Region
pub mod PageSet
pub mod Init
pub mod Client
pub mod Cycle
pub mod Reserve
use yerp.Memory.{Ptr, nullptr}
use yerp.Prelude.{
  Bool, Option, false, if◌then◌else◌, leb, length, none, not, some, suc, true, zero, ℕ, ◌%◌, ◌+◌,
  ◌-◌, ◌/◌, ◌==◌, ◌^◌,
}

-- `cell a` is the field `next` of the page at `a`, or `none` where no memory is mapped.
-- `memory_of a` is the memory that the address `a` leads to, as the page tables have it: two
-- addresses with the same memory, such as a physical address that is mapped to itself and its
-- address in the higher half, are one page, and what is written at one is read at the other. No
-- operation changes the page tables; `IsPmm` asks that the links agree.
pub record Pmm : Type 0 where
  pub cell : Ptr → Option Ptr
  pub memory_of : Ptr → Ptr
  pub freelist_head : Ptr
  pub freelist_tail : Ptr
  pub total_pages : ℕ
  pub free_pages : ℕ

-- `halted` is a call of `kpanic`, which does not return; `crashed` an access to memory that is
-- not mapped.
pub data Run {ℓ} (A : Type ℓ) : Type ℓ where
  returned : A → Run A
  halted : Run A
  crashed : Run A
  no_rounds : Run A

-- `Limine::HHDM`: the offset of the higher half, when the bootloader gave one.
pub record Hhdm : Type 0 where
  pub available : Bool
  pub response_offset : ℕ

-- `Limine::HHDM::offset()`
abbrev pub offset : Hhdm → ℕ
offset h = if h.available then h.response_offset else 0

abbrev pub page_size : ℕ
page_size = 4096

-- `addr & ~(align - 1)` and `(addr + (align - 1)) & ~(align - 1)` for `align` a power of two.
unfoldable pub align_down : ℕ → ℕ → ℕ
align_down addr align = addr - addr % align

unfoldable pub align_up : ℕ → ℕ → ℕ
align_up addr align = align_down ((addr + (align - 1)) % 2 ^ 64) align

-- `p->next = q`, for every address that leads to the memory of `p`.
abbrev pub set_next : (Ptr → Ptr) → (Ptr → Option Ptr) → Ptr → Ptr → Ptr → Option Ptr
set_next memory_of cell p q a = if memory_of a == memory_of p then some q else cell a

abbrev pub virt_of : Hhdm → Ptr → Ptr
virt_of h phys = if h.available then (phys + offset h) % 2 ^ 64 else nullptr

-- `--s_free_pages` on a `u64`.
abbrev pub decrement : ℕ → ℕ
decrement n = (n + 2 ^ 64 - 1) % 2 ^ 64

abbrev pub increment : ℕ → ℕ
increment n = (n + 1) % 2 ^ 64

-- The pair of the physical and the virtual address, and the new state.
unfoldable pub allocate : Hhdm → Pmm → Run ((Ptr × Ptr) × Pmm)
allocate h s = if s.freelist_head == nullptr then halted else (elim (s.cell s.freelist_head) [
  | none ↦ crashed
  | some next ↦ returned (
    (s.freelist_head, virt_of h s.freelist_head),
    record s { freelist_head = next; free_pages = decrement s.free_pages },
  )
])

unfoldable pub try_allocate : Hhdm → Pmm → Run ((Ptr × Ptr) × Pmm)
unfolding allocate
try_allocate h s = if s.freelist_head == nullptr then returned ((0, nullptr), s) else allocate h s

-- `for ( it = …; it != nullptr; it = it->next ) if ( it == page ) …`, one unit of fuel a round.
unfoldable pub on_freelist : ℕ → (Ptr → Option Ptr) → Ptr → Ptr → Run Bool
on_freelist zero cell it page = no_rounds
on_freelist (suc f) cell it page = elim (it == nullptr) [
  | true ↦ returned false
  | false ↦ elim (it == page) [
    | true ↦ returned true
    | false ↦ elim (cell it) [ none ↦ crashed | some next ↦ on_freelist f cell next page ]
  ]
]

-- The page goes in front of the free list; its memory is written.
unfoldable pub push : Pmm → Ptr → Run Pmm
push s page = elim (s.cell page) [
  | none ↦ crashed
  | some _ ↦ returned (record s {
    cell = set_next s.memory_of s.cell page s.freelist_head;
    freelist_head = page;
    freelist_tail = if s.freelist_tail == nullptr then page else s.freelist_tail;
    free_pages = increment s.free_pages;
  })
]

-- `free`; a warning leaves the state as it is.
unfoldable pub free : ℕ → Hhdm → Pmm → Ptr → Run Pmm
unfolding on_freelist push
free f h s phys_addr =
    let page = (phys_addr + offset h) % 2 ^ 64 in
    if not (phys_addr % page_size == 0)
    then returned s
    else (elim (on_freelist f s.cell s.freelist_head page) [
      | returned double ↦ (if double then returned s else push s page)
      | halted ↦ halted
      | crashed ↦ crashed
      | no_rounds ↦ no_rounds
    ])

-- The loop of `addRegion` over `n` pages from `addr` on.
unfoldable pub add_pages : ℕ → Pmm → Ptr → Run Pmm
add_pages zero s addr = returned s
add_pages (suc n) s addr = elim (push s addr) [
  | returned s' ↦
      add_pages n (record s' { total_pages = increment s'.total_pages }) (addr + page_size)
  | halted ↦ halted
  | crashed ↦ crashed
  | no_rounds ↦ no_rounds
]

-- The loop runs while `addr < region_end` in steps of a page, between two multiples of it.
unfoldable pub add_region : Pmm → ℕ → ℕ → Run Pmm
unfolding add_pages
add_region s base length =
    let region_start = align_up base page_size in
    let region_end = align_down ((base + length) % 2 ^ 64) page_size in
    if leb region_end region_start
    then returned s
    else add_pages ((region_end - region_start) / page_size) s region_start
