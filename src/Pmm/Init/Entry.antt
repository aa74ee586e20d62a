-- ===== src/Pmm/Init/Entry.antt =====
-- One entry of the memory map.
use mathlib.Core.Path.{subst}
use yerp.Memory.{Ptr}
use yerp.Pmm.{Pmm, add_region, page_size, returned}
use yerp.Pmm.Chain.{IsPmm, held, listed}
use yerp.Pmm.Init.{MemmapEntry, add_entry, min_physical}
use yerp.Pmm.PageSet.{in_pages, in_pages-page_of, in_pages-suc, page_of}
use yerp.Pmm.Region.{
  IsFresh, Keeps, add_pages-stacked, add_region-run, length-stacked, pages_in, stacked,
}
use yerp.Prelude.{
  Bool, Bool-cases, List, arith, false, if◌then◌else◌, inl, inr, leb, length, ltb, map, refl, some,
  suc, sym, true, zero, ℕ, ◌%◌, ◌&&◌, ◌*◌, ◌+◌, ◌-◌, ◌/◌, ◌<◌, ◌==◌, ◌^◌, ◌||◌, ◌∙◌, ◌∷◌, ◌≡◌, ◌≤◌,
}

-- The part of an entry that is added: where it starts and how long it is.
abbrev pub start_of : MemmapEntry → ℕ
start_of e = if ltb e.base min_physical then min_physical else e.base

abbrev pub size_of : MemmapEntry → ℕ
size_of e = e.base + e.length - start_of e

-- `b` is a whole page of the part that is added, and their number.
abbrev pub takes : ℕ → MemmapEntry → Ptr → Bool
takes usable e b = (e.entry_type == usable) && page_of (start_of e) (size_of e) b

abbrev pub page_count : ℕ → MemmapEntry → ℕ
page_count usable e = if e.entry_type == usable then pages_in (start_of e) (size_of e) else 0

-- `a` lies in the part that is added.
abbrev pub inside : ℕ → MemmapEntry → Ptr → Bool
inside usable e a = (e.entry_type == usable) && (leb (start_of e) a && ltb a (e.base + e.length))

-- An entry of usable memory does not reach the last page of the address space.
abbrev pub Fits : ℕ → MemmapEntry → Type 0
Fits usable e = (e.entry_type == usable) ≡ true → e.base + e.length + page_size ≤ 2 ^ 64

listed-in_pages :
    (n : ℕ) (addr b : Ptr) (xs : List Ptr)
    → listed b (stacked n addr xs) ≡ (in_pages b addr n || listed b xs)
unfolding listed stacked
listed-in_pages zero addr b xs = ground arith
listed-in_pages (suc n) addr b xs =
    rw (in_pages-suc b addr n, listed-in_pages n (addr + page_size) b (addr ∷ xs)) (ground arith)

map-stacked :
    (memory_of : Ptr → Ptr) (n : ℕ) (addr : Ptr) (xs : List Ptr)
    → ((a : Ptr) → addr ≤ a → a < addr + n * page_size → memory_of a ≡ a)
    → map memory_of xs ≡ xs
    → map memory_of (stacked n addr xs) ≡ stacked n addr xs
unfolding stacked
map-stacked memory_of zero addr xs there e = e
map-stacked memory_of (suc n) addr xs there e =
    map-stacked memory_of n (addr + page_size) (addr ∷ xs)
      (λ a lo hi. there a (omega arith) (omega arith))
      (rw (there addr (omega arith) (omega arith), e))

-- The state after an entry is added to the free list `xs`.
pub record Added (usable : ℕ) (e : MemmapEntry) (s : Pmm) (xs : List Ptr) (s' : Pmm) (ys : List Ptr)
    : Type 0 where
  pub valid : IsPmm s' ys
  pub pages : (b : Ptr) → listed b ys ≡ (takes usable e b || listed b xs)
  pub count : length ys ≡ page_count usable e + length xs
  pub total : s'.total_pages ≡ s.total_pages + page_count usable e
  pub keeps : Keeps s s'
  pub physical : map s.memory_of xs ≡ xs → map s'.memory_of ys ≡ ys

unchanged-Added :
    (usable : ℕ) (e : MemmapEntry) (s : Pmm) (xs : List Ptr)
    → IsPmm s xs
    → ((b : Ptr) → takes usable e b ≡ false)
    → page_count usable e ≡ 0
    → Added usable e s xs s xs
unchanged-Added usable e s xs v no_page no_count = record {
  valid = v;
  pages = λ b. rw (no_page b);
  count = rw no_count (omega arith);
  total = rw no_count (omega arith);
  keeps = ((λ a q h. (q, h)), refl);
  physical = λ e. e;
}

region-Added :
    (usable : ℕ) (e : MemmapEntry) (s : Pmm) (xs : List Ptr)
    → (e.entry_type == usable) ≡ true
    → IsPmm s xs
    → e.base + e.length + page_size ≤ 2 ^ 64
    → min_physical < e.base + e.length
    → IsFresh s xs
        ((start_of e + (page_size - 1)) / page_size * page_size)
        (pages_in (start_of e) (size_of e))
    → length xs + page_count usable e < 2 ^ 52
    → s.total_pages + page_count usable e < 2 ^ 64
    → (s' : Pmm) × (ys : List Ptr) × (add_region s (start_of e) (size_of e) ≡ returned s')
      × Added usable e s xs s' ys
region-Added usable e s xs kind v fits above fresh room total =
    let first = (start_of e + (page_size - 1)) / page_size * page_size in
    let n = pages_in (start_of e) (size_of e) in
    let counted : page_count usable e ≡ n = rw kind in
    let (s', run, v', t, keeps) =
      add_pages-stacked n s first xs v fresh (omega arith) (omega arith) in
    (
      s',
      stacked n first xs,
      add_region-run s (start_of e) (size_of e) (ground arith) ∙ run,
      record {
        valid = v';
        pages = λ b.
            rw (kind, listed-in_pages n first b xs, in_pages-page_of (start_of e) (size_of e) b);
        count = rw counted (length-stacked n first xs);
        total = rw counted t;
        keeps = keeps;
        physical = λ e.
            subst (λ m. map m (stacked n first xs) ≡ stacked n first xs) (sym keeps.1)
              (map-stacked s.memory_of n first xs (λ a lo hi. (fresh a lo hi).2) e);
      },
    )

-- The part that is added is mapped at its physical address and not on the free list.
abbrev pub EntryFresh : ℕ → MemmapEntry → Pmm → List Ptr → Type 0
EntryFresh usable e s xs =
    (a : Ptr)
    → inside usable e a ≡ true
    → ((q : Ptr) × (s.cell a ≡ some q)) × (s.memory_of a ≡ a) × (held s.memory_of a xs ≡ false)

EntryFresh-IsFresh :
    (usable : ℕ) (e : MemmapEntry) (s : Pmm) (xs : List Ptr)
    → (e.entry_type == usable) ≡ true
    → EntryFresh usable e s xs
    → IsFresh s xs
        ((start_of e + (page_size - 1)) / page_size * page_size)
        (pages_in (start_of e) (size_of e))
EntryFresh-IsFresh usable e s xs kind fresh a lo hi =
    let low : min_physical ≤ start_of e = ground arith in
    let within : (leb (start_of e) a && ltb a (e.base + e.length)) ≡ true = ground arith in
    let here : inside usable e a ≡ true = rw (kind, within) in
    let (mapped, there, out) = fresh a here in (omega arith, mapped, there, out)

pub add_entry-Added :
    (usable : ℕ) (e : MemmapEntry) (s : Pmm) (xs : List Ptr)
    → IsPmm s xs
    → Fits usable e
    → EntryFresh usable e s xs
    → length xs + page_count usable e < 2 ^ 52
    → s.total_pages + page_count usable e < 2 ^ 64
    → (s' : Pmm) × (ys : List Ptr) × (add_entry usable s e ≡ returned s')
      × Added usable e s xs s' ys
unfolding add_entry
add_entry-Added usable e s xs v fits fresh room total = elim (Bool-cases (e.entry_type == usable)) [
  | inr other ↦ (s, xs, rw other, unchanged-Added usable e s xs v (λ b. rw other) (rw other))
  | inl kind ↦
      let fits' = fits kind in
      let end : (e.base + e.length) % 2 ^ 64 ≡ e.base + e.length = omega arith in
      elim (Bool-cases (leb (e.base + e.length) min_physical)) [
        | inl below ↦ (
          s,
          xs,
          rw (kind, end, below),
          unchanged-Added usable e s xs v (λ b. rw kind (ground arith)) (rw kind (ground arith)),
        )
        | inr above ↦
            let size : (e.base + e.length + 2 ^ 64 - start_of e) % 2 ^ 64 ≡ size_of e =
              ground arith in
            let (s', ys, run, added) =
              region-Added usable e s xs kind v fits' (ground arith)
                (EntryFresh-IsFresh usable e s xs kind fresh) room total in
            (s', ys, rw (kind, end, above, size) run, added)
      ]
]
