-- ===== src/Pmm/Init/Map.antt =====
-- `init` over the whole memory map.
use mathlib.Core.Path.{subst}
use yerp.Memory.{Ptr}
use yerp.Pmm.{Pmm, returned}
use yerp.Pmm.Chain.{IsPmm, held-listed, listed}
use yerp.Pmm.Init.{
  MemmapEntry, MemmapResponse, init, init_loop, map_available, map_entry_at, map_entry_count,
}
use yerp.Pmm.Init.Entry.{Added, EntryFresh, Fits, add_entry-Added, inside, page_count, takes}
use yerp.Pmm.Region.{Keeps}
use yerp.Prelude.{
  Bool, List, [], arith, false, leb, length, ltb, map, refl, some, suc, sym, true, zero, ℕ, ◌+◌,
  ◌<◌, ◌==◌, ◌^◌, ◌||◌, ◌∙◌, ◌≡◌, ◌≤◌,
}

module _ (usable : ℕ) (r : MemmapResponse) where
  -- `b` is a page that one of the first `n` entries adds, and the number of such pages.
  abbrev pub taken_before : ℕ → Ptr → Bool
  taken_before zero b = false
  taken_before (suc i) b = takes usable (r.entries i) b || taken_before i b

  abbrev pub count_before : ℕ → ℕ
  count_before zero = 0
  count_before (suc i) = page_count usable (r.entries i) + count_before i

  -- The usable parts of the entries are memory that is mapped at its physical address, and do not
  -- overlap.
  pub record IsMemoryMap (s : Pmm) : Type 0 where
    pub revised : (r.revision == 0) ≡ false
    pub entered : 0 < r.entry_count
    pub fits : (i : ℕ) → i < r.entry_count → Fits usable (r.entries i)
    pub mapped :
        (i : ℕ)
        → i < r.entry_count
        → (a : Ptr) → inside usable (r.entries i) a ≡ true
        → ((q : Ptr) × (s.cell a ≡ some q)) × (s.memory_of a ≡ a)
    pub apart :
        (i j : ℕ)
        → j < i
        → i < r.entry_count
        → (a : Ptr) → inside usable (r.entries i) a ≡ true
        → inside usable (r.entries j) a ≡ false
    pub bounded : count_before r.entry_count < 2 ^ 52
    pub counted : s.total_pages + count_before r.entry_count < 2 ^ 64

  count_before_mono : (i n : ℕ) → count_before i ≤ count_before (i + n)
  count_before_mono i zero = let e : i + 0 ≡ i = omega arith in rw e (omega arith)
  count_before_mono i (suc n) =
      let e : i + suc n ≡ suc (i + n) = omega arith in rw e (omega (arith, count_before_mono i n))

  outside_takes : (e : MemmapEntry) (a : Ptr) → inside usable e a ≡ false → takes usable e a ≡ false
  outside_takes e a h = ground arith

  taken_before-outside :
      (i : ℕ) (a : Ptr)
      → ((j : ℕ) → j < i → inside usable (r.entries j) a ≡ false)
      → taken_before i a ≡ false
  taken_before-outside zero a h = refl
  taken_before-outside (suc i) a h =
      rw (outside_takes (r.entries i) a (h i (omega arith)))
        (taken_before-outside i a (λ j lt. h j (omega arith)))

  map_entry_at-eq :
      (i : ℕ)
      → (r.revision == 0) ≡ false
      → i < r.entry_count
      → map_entry_at (some r) i ≡ some (r.entries i)
  unfolding map_entry_at map_available map_entry_count
  map_entry_at-eq i revised lt =
      let entered : ltb 0 r.entry_count ≡ true = ground arith in
      let within : leb r.entry_count i ≡ false = ground arith in rw (revised, entered, within)

module _ (usable : ℕ) (r : MemmapResponse) (s : Pmm) (ok : IsMemoryMap usable r s) where
  -- The state after the first `i` entries.
  record Loaded (i : ℕ) (s1 : Pmm) (xs : List Ptr) : Type 0 where
    valid : IsPmm s1 xs
    pages : (b : Ptr) → listed b xs ≡ taken_before usable r i b
    count : length xs ≡ count_before usable r i
    total : s1.total_pages ≡ s.total_pages + count_before usable r i
    keeps : Keeps s s1
    physical : map s1.memory_of xs ≡ xs

  Loaded-EntryFresh :
      (i : ℕ) (s1 : Pmm) (xs : List Ptr)
      → i < r.entry_count
      → Loaded i s1 xs
      → EntryFresh usable (r.entries i) s1 xs
  Loaded-EntryFresh i s1 xs lt l a h =
      let ((q, e), there) = ok.mapped i lt a h in
      let there' : s1.memory_of a ≡ a = subst (λ m. m a ≡ a) (sym l.keeps.1) there in
      (
        l.keeps.0 a q e,
        there',
        held-listed s1.memory_of a xs there' l.physical
            ∙ l.pages a
            ∙ taken_before-outside usable r i a (λ j lt'. ok.apart i j lt' lt a h),
      )

  Loaded-Added :
      (i : ℕ) (s1 s2 : Pmm) (xs ys : List Ptr)
      → Loaded i s1 xs
      → Added usable (r.entries i) s1 xs s2 ys
      → Loaded (suc i) s2 ys
  Loaded-Added i s1 s2 xs ys l a = record {
    valid = a.valid;
    pages = λ b. rw (a.pages b, l.pages b);
    count = omega (arith, a.count, l.count);
    total = omega (arith, a.total, l.total);
    keeps = ((λ p q e. let (q', e') = l.keeps.0 p q e in a.keeps.0 p q' e'), a.keeps.1 ∙ l.keeps.1);
    physical = a.physical l.physical;
  }

  init_loop-Loaded :
      (n i : ℕ) (s1 : Pmm) (xs : List Ptr)
      → i + n ≡ r.entry_count
      → Loaded i s1 xs
      → (s' : Pmm) × (ys : List Ptr) × (init_loop usable n (some r) s1 i ≡ returned s')
        × Loaded r.entry_count s' ys
  unfolding init_loop
  init_loop-Loaded zero i s1 xs e l =
      let e' : i ≡ r.entry_count = omega arith in (s1, xs, refl, subst (λ k. Loaded k s1 xs) e' l)
  init_loop-Loaded (suc n) i s1 xs e l =
      let lt : i < r.entry_count = omega arith in
      let up : suc i + n ≡ r.entry_count = omega arith in
      let less : count_before usable r (suc i) ≤ count_before usable r r.entry_count =
        rw up at (count_before_mono usable r (suc i) n) in
      let (s2, ys, run, added) =
        add_entry-Added usable (r.entries i) s1 xs l.valid (ok.fits i lt)
          (Loaded-EntryFresh i s1 xs lt l) (omega (arith, l.count, ok.bounded, less))
          (omega (arith, l.total, ok.counted, less)) in
      let up' : i + 1 + n ≡ r.entry_count = omega arith in
      let next : suc i ≡ i + 1 = omega arith in
      let (s3, zs, run', l') =
        init_loop-Loaded n (i + 1) s2 ys up'
          (subst (λ k. Loaded k s2 ys) next (Loaded-Added i s1 s2 xs ys l added)) in
      (s3, zs, rw (map_entry_at-eq usable r i ok.revised lt, run, init_loop) run', l')

-- `init` with a memory map of a nonzero revision that has entries, whose usable parts of 1 MiB
-- and above are memory that is mapped at its physical address, do not overlap and do not reach the last page of the address
-- space, and whose pages do not overflow the counters, run on an empty free list: `init` ends
-- without a panic, and the free list then holds exactly the whole pages of these parts, each page
-- once; the pages are counted as free and in the total.
pub init-IsPmm :
    (usable : ℕ) (r : MemmapResponse) (s : Pmm)
    → IsPmm s []
    → IsMemoryMap usable r s
    → (s' : Pmm) × (ys : List Ptr) × (init usable (some r) s ≡ returned s')
      × IsPmm s' ys
      × ((b : Ptr) → listed b ys ≡ taken_before usable r r.entry_count b)
      × (s'.free_pages ≡ count_before usable r r.entry_count)
      × (s'.total_pages ≡ s.total_pages + count_before usable r r.entry_count)
unfolding init map_available map_entry_count listed
init-IsPmm usable r s v ok =
    let entered : ltb 0 r.entry_count ≡ true = let h = ok.entered in ground arith in
    let first : Loaded usable r s ok 0 s [] = record {
      valid = v;
      pages = λ b. refl;
      count = refl;
      total = omega arith;
      keeps = ((λ a q e. (q, e)), refl);
      physical = refl;
    } in
    let (s', ys, run, l) =
      init_loop-Loaded usable r s ok r.entry_count 0 s [] (omega arith) first in
    (s', ys, rw (ok.revised, entered) run, l.valid, l.pages, l.valid.count ∙ l.count, l.total)
