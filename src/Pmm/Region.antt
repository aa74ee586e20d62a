-- ===== src/Pmm/Region.antt =====
-- `addRegion`.
use mathlib.Core.Path.{subst}
use yerp.Memory.{Ptr}
use yerp.Pmm.{Pmm, add_pages, add_region, align_down, align_up, increment, page_size, returned}
use yerp.Pmm.Chain.{IsPmm, held, listed}
use yerp.Pmm.Stack.{push-IsPmm}
use yerp.Prelude.{
  Bool-cases, List, arith, false, inl, inr, leb, length, refl, some, suc, sym, true, zero, ℕ, ◌%◌,
  ◌*◌, ◌+◌, ◌-◌, ◌/◌, ◌<◌, ◌==◌, ◌^◌, ◌∙◌, ◌∷◌, ◌≡◌, ◌≢◌, ◌≤◌,
}

-- The free list `xs` with `n` pages from `addr` on pushed one after the other.
unfoldable pub stacked : ℕ → Ptr → List Ptr → List Ptr
stacked zero addr xs = xs
stacked (suc n) addr xs = stacked n (addr + page_size) (addr ∷ xs)

-- The `n` pages from `addr` on are mapped at their physical address, none at address 0 or on the
-- list `xs` under any address.
abbrev pub IsFresh : Pmm → List Ptr → Ptr → ℕ → Type 0
IsFresh s xs addr n =
    (a : Ptr)
    → addr ≤ a
    → a < addr + n * page_size
    → (0 < a)
      × ((q : Ptr) × (s.cell a ≡ some q))
      × (s.memory_of a ≡ a)
      × (held s.memory_of a xs ≡ false)

module _ (s s' : Pmm) (xs : List Ptr) (addr n : ℕ) (fresh : IsFresh s xs addr (suc n)) where
  IsFresh-rest :
      ((a : Ptr) → s.memory_of a ≢ s.memory_of addr → s'.cell a ≡ s.cell a)
      → s'.memory_of ≡ s.memory_of
      → (t : ℕ) → IsFresh (record s' { total_pages = t }) (addr ∷ xs) (addr + page_size) n
  unfolding listed
  IsFresh-rest keep kept t a lo hi =
      let (positive, (q, e), there, out) = fresh a (omega arith) (omega arith) in
      let (_, _, first, _) = fresh addr (omega arith) (omega arith) in
      let other : s.memory_of a ≢ s.memory_of addr = omega (arith, there, first) in
      let ne : (s.memory_of addr == s.memory_of a) ≡ false = ground arith in
      (
        positive,
        (q, keep a other ∙ e),
        subst (λ m. m a ≡ a) (sym kept) there,
        subst (λ m. held m a (addr ∷ xs) ≡ false) (sym kept) (rw ne out),
      )

IsPmm-total :
    (s : Pmm) (xs : List Ptr) (t : ℕ) → IsPmm s xs → IsPmm (record s { total_pages = t }) xs
IsPmm-total s xs t v = record {
  chain = v.chain;
  distinct = v.distinct;
  apart = v.apart;
  aliased = v.aliased;
  count = v.count;
  bounded = v.bounded;
}

-- Memory that is mapped stays mapped, and where it was.
abbrev pub Keeps : Pmm → Pmm → Type 0
Keeps s s' =
    ((a q : Ptr) → s.cell a ≡ some q → (q' : Ptr) × (s'.cell a ≡ some q'))
    × (s'.memory_of ≡ s.memory_of)

push-Keeps :
    (s s' : Pmm) (page : Ptr)
    → ((a : Ptr) → s.memory_of a ≢ s.memory_of page → s'.cell a ≡ s.cell a)
    → ((a : Ptr) → s.memory_of a ≡ s.memory_of page → s'.cell a ≡ some s.freelist_head)
    → (a q : Ptr) → s.cell a ≡ some q
    → (q' : Ptr) × (s'.cell a ≡ some q')
push-Keeps s s' page keep written a q e = elim (Bool-cases (s.memory_of a == s.memory_of page)) [
  | inl here ↦ (s.freelist_head, written a (ground arith))
  | inr other ↦ (q, keep a (ground arith) ∙ e)
]

pub add_pages-stacked :
    (n : ℕ) (s : Pmm) (addr : Ptr) (xs : List Ptr)
    → IsPmm s xs
    → IsFresh s xs addr n
    → length xs + n < 2 ^ 52
    → s.total_pages + n < 2 ^ 64
    → (s' : Pmm) × (add_pages n s addr ≡ returned s')
      × IsPmm s' (stacked n addr xs)
      × (s'.total_pages ≡ s.total_pages + n)
      × Keeps s s'
unfolding add_pages stacked
add_pages-stacked zero s addr xs v fresh room total =
    (s, refl, v, omega arith, ((λ a r e. (r, e)), refl))
add_pages-stacked (suc n) s addr xs v fresh room total =
    let (positive, (q, e), there, out) = fresh addr (omega arith) (omega arith) in
    let (s', run, v', keep, written, head, unchanged, kept) =
      push-IsPmm s addr xs v positive q e out (omega arith) in
    let t = increment s'.total_pages in
    let grown : t ≡ s.total_pages + 1 = omega arith in
    let mapped = push-Keeps s s' addr keep written in
    let (s'', run', v'', total', keeps) =
      add_pages-stacked n (record s' { total_pages = t }) (addr + page_size) (addr ∷ xs)
        (IsPmm-total s' (addr ∷ xs) t v') (IsFresh-rest s s' xs addr n fresh keep kept t)
        (omega arith) (omega arith) in
    (
      s'',
      rw (run, add_pages) run',
      v'',
      omega arith,
      ((λ a r e'. let (r', e'') = mapped a r e' in keeps.0 a r' e''), keeps.1 ∙ kept),
    )

listed-stacked_old :
    (n : ℕ) (addr a : Ptr) (xs : List Ptr)
    → listed a xs ≡ true
    → listed a (stacked n addr xs) ≡ true
unfolding listed stacked
listed-stacked_old zero addr a xs h = h
listed-stacked_old (suc n) addr a xs h =
    listed-stacked_old n (addr + page_size) a (addr ∷ xs) (ground arith)

listed-stacked :
    (n : ℕ) (addr i : ℕ) (xs : List Ptr)
    → i < n
    → listed (addr + i * page_size) (stacked n addr xs) ≡ true
unfolding listed stacked
listed-stacked zero addr i xs h = absurd (omega arith)
listed-stacked (suc n) addr zero xs h =
    listed-stacked_old n (addr + page_size) (addr + 0 * page_size) (addr ∷ xs) (ground arith)
listed-stacked (suc n) addr (suc i) xs h =
    let e : addr + suc i * page_size ≡ addr + page_size + i * page_size = omega arith in
    rw e (listed-stacked n (addr + page_size) i (addr ∷ xs) (omega arith))

pub length-stacked :
    (n : ℕ) (addr : Ptr) (xs : List Ptr) → length (stacked n addr xs) ≡ n + length xs
unfolding stacked
length-stacked zero addr xs = omega arith
length-stacked (suc n) addr xs = omega (arith, length-stacked n (addr + page_size) (addr ∷ xs))

abbrev pub pages_in : ℕ → ℕ → ℕ
pages_in base length = (base + length) / page_size - (base + (page_size - 1)) / page_size

pub add_region-start :
    (base : ℕ)
    → base + page_size ≤ 2 ^ 64
    → align_up base page_size ≡ (base + (page_size - 1)) / page_size * page_size
unfolding align_up align_down
add_region-start base h = omega arith

pub add_region-end :
    (b : ℕ) → b < 2 ^ 64 → align_down (b % 2 ^ 64) page_size ≡ b / page_size * page_size
unfolding align_down
add_region-end b h = omega arith

pub add_region-run :
    (s : Pmm) (base size : ℕ)
    → base + size + page_size ≤ 2 ^ 64
    → add_region s base size
      ≡ add_pages (pages_in base size) s ((base + (page_size - 1)) / page_size * page_size)
unfolding add_region add_pages
add_region-run s base size fits =
    let first = (base + (page_size - 1)) / page_size in
    let last = (base + size) / page_size in
    rw (add_region-start base (omega arith), add_region-end (base + size) (omega arith))
      (elim (Bool-cases (leb (last * page_size) (first * page_size))) [
        | inl e ↦ let z : pages_in base size ≡ 0 = ground arith in rw (e, z)
        | inr e ↦
            let n : (last * page_size - first * page_size) / page_size ≡ pages_in base size =
              omega arith in
            rw (e, n)
      ])

-- `addRegion` of a block that ends a page below `2 ^ 64`, whose whole pages are mapped at their
-- physical address, none of them at address 0, are not on the free list under any address and do
-- not overflow the counters, puts every whole page of the block on the free list, each once, keeps
-- the pages that were there, and counts the new pages as free and in the total.
pub add_region-IsPmm :
    (s : Pmm) (base size : ℕ) (xs : List Ptr)
    → IsPmm s xs
    → base + size + page_size ≤ 2 ^ 64
    → IsFresh s xs ((base + (page_size - 1)) / page_size * page_size) (pages_in base size)
    → length xs + pages_in base size < 2 ^ 52
    → s.total_pages + pages_in base size < 2 ^ 64
    → (s' : Pmm) × (ys : List Ptr) × (add_region s base size ≡ returned s')
      × IsPmm s' ys
      × ((a : Ptr)
          → a % page_size ≡ 0
          → base ≤ a
          → a + page_size ≤ base + size
          → listed a ys ≡ true)
      × ((a : Ptr) → listed a xs ≡ true → listed a ys ≡ true)
      × (length ys ≡ pages_in base size + length xs)
      × (s'.total_pages ≡ s.total_pages + pages_in base size)
unfolding add_region
add_region-IsPmm s base size xs v fits fresh room total =
    let start = (base + (page_size - 1)) / page_size * page_size in
    let n = pages_in base size in
    let (s', run, v', t, _) = add_pages-stacked n s start xs v fresh room total in
    (
      s',
      stacked n start xs,
      add_region-run s base size (omega arith) ∙ run,
      v',
      (λ a aligned lo hi.
          let e : a ≡ start + (a / page_size - start / page_size) * page_size = omega arith in
          let at : listed (start + (a / page_size - start / page_size) * page_size)
                (stacked n start xs)
              ≡ true =
            listed-stacked n start (a / page_size - start / page_size) xs (omega arith) in
          rw (← e) at at),
      (λ a h. listed-stacked_old n start a xs h),
      length-stacked n start xs,
      t,
    )
