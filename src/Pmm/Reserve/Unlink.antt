-- ===== src/Pmm/Reserve/Unlink.antt =====
-- The loop of `reserveRegion` takes one page off the free list.
use yerp.Memory.{Ptr, nullptr}
use yerp.Pmm.{Pmm, decrement, returned, set_next}
use yerp.Pmm.Chain.{Aliased, Chain, Chain-set_next, Distinct, held, listed, set_next-Aliased}
use yerp.Pmm.Reserve.{unlink}
use yerp.Prelude.{
  Bool-cases, List, [], ap, arith, false, if◌then◌else◌, inl, inr, length, map, not, refl, some,
  suc, true, zero, ℕ, ◌&&◌, ◌<◌, ◌==◌, ◌∙◌, ◌∷◌, ◌≡◌, ◌≢◌,
}

-- The list with the first `a` left out.
unfoldable pub without : Ptr → List Ptr → List Ptr
without a [] = []
without a (x ∷ xs) = if x == a then xs else x ∷ without a xs

pub without-absent : (a : Ptr) (xs : List Ptr) → listed a xs ≡ false → without a xs ≡ xs
unfolding listed without
without-absent a [] h = refl
without-absent a (x ∷ xs) h =
    let ne : (x == a) ≡ false = ground arith in
    let rest : listed a xs ≡ false = ground arith in rw (ne, without-absent a xs rest)

pub listed-without :
    (a b : Ptr) (xs : List Ptr)
    → Distinct xs
    → listed b (without a xs) ≡ (listed b xs && not (a == b))
unfolding listed without
listed-without a b [] d = refl
listed-without a b (x ∷ xs) d = elim (Bool-cases (x == a)) [
  | inl e ↦
      let here : a ≡ x = ground arith in
      let gone : listed a xs ≡ false = rw here d.0 in
      rw e (elim (Bool-cases (a == b)) [
        | inl q ↦
            let q' : b ≡ a = ground arith in
            let gone' : listed b xs ≡ false = rw q' gone in ground arith
        | inr q ↦ ground arith
      ])
  | inr e ↦ rw (e, listed-without a b xs d.1) (ground arith)
]

pub Distinct-without : (a : Ptr) (xs : List Ptr) → Distinct xs → Distinct (without a xs)
unfolding without
Distinct-without a [] d = tt
Distinct-without a (x ∷ xs) d = elim (Bool-cases (x == a)) [
  | inl e ↦ rw e d.1
  | inr e ↦ rw e (rw (listed-without a x xs d.1, d.0), Distinct-without a xs d.1)
]

held-without :
    (memory_of : Ptr → Ptr) (a b : Ptr) (xs : List Ptr)
    → held memory_of b xs ≡ false
    → held memory_of b (without a xs) ≡ false
unfolding listed without
held-without memory_of a b [] out = out
held-without memory_of a b (x ∷ xs) out = elim (Bool-cases (x == a)) [
  | inl e ↦ rw e (ground arith)
  | inr e ↦
      let ne : (memory_of x == memory_of b) ≡ false = ground arith in
      rw e (rw ne (held-without memory_of a b xs (ground arith)))
]

pub apart-without :
    (memory_of : Ptr → Ptr) (a : Ptr) (xs : List Ptr)
    → Distinct (map memory_of xs)
    → Distinct (map memory_of (without a xs))
unfolding without
apart-without memory_of a [] d = tt
apart-without memory_of a (x ∷ xs) d = elim (Bool-cases (x == a)) [
  | inl e ↦ rw e d.1
  | inr e ↦ rw e (held-without memory_of a x xs d.0, apart-without memory_of a xs d.1)
]

pub length-without :
    (a : Ptr) (xs : List Ptr) → listed a xs ≡ true → suc (length (without a xs)) ≡ length xs
unfolding listed without
length-without a [] h = absurd (ground arith)
length-without a (x ∷ xs) h = elim (Bool-cases (x == a)) [
  | inl e ↦ rw e
  | inr e ↦ let rest : listed a xs ≡ true = ground arith in rw e (ap suc (length-without a xs rest))
]

pub unlink-absent :
    (f : ℕ) (s : Pmm) (prev it addr : Ptr) (zs : List Ptr)
    → Chain s.cell it zs
    → listed addr zs ≡ false
    → length zs < f
    → unlink f s prev it addr ≡ returned s
unfolding unlink listed
unlink-absent zero s prev it addr zs h out fuel = absurd (omega arith)
unlink-absent (suc f) s prev it addr [] h out fuel = rw (h, unlink)
unlink-absent (suc f) s prev it addr (x ∷ zs) h out fuel =
    let (at, positive, (q, e, rest)) = h in
    let not_null : (it == nullptr) ≡ false = ground arith in
    let found_cell : s.cell it ≡ some q = rw at e in
    let ne : (it == addr) ≡ false = ground arith in
    let out' : listed addr zs ≡ false = ground arith in
    rw (unlink, not_null, found_cell, ne) (unlink-absent f s it q addr zs rest out' (omega arith))

-- The state after the page `addr` of the list `zs`, which stands behind `prev`, is taken off.
pub record Unlinked (s : Pmm) (prev addr : Ptr) (zs : List Ptr) (s' : Pmm) : Type 0 where
  pub chain : (q : Ptr) × (s'.cell prev ≡ some q) × Chain s'.cell q (without addr zs)
  pub frame :
      (a : Ptr)
      → s.memory_of a ≢ s.memory_of prev
      → held s.memory_of a zs ≡ false
      → s'.cell a ≡ s.cell a
  pub memory : s'.memory_of ≡ s.memory_of
  pub aliased : Aliased s.memory_of s.cell → Aliased s'.memory_of s'.cell
  pub head : s'.freelist_head ≡ s.freelist_head
  pub counted : s'.free_pages ≡ decrement s.free_pages
  pub total : s'.total_pages ≡ s.total_pages

pub unlink-Unlinked :
    (f : ℕ) (s : Pmm) (prev it addr : Ptr) (zs : List Ptr)
    → Chain s.cell it zs
    → s.cell prev ≡ some it
    → 0 < prev
    → held s.memory_of prev zs ≡ false
    → Distinct zs
    → Distinct (map s.memory_of zs)
    → listed addr zs ≡ true
    → length zs < f
    → (s' : Pmm) × (unlink f s prev it addr ≡ returned s') × Unlinked s prev addr zs s'
unfolding unlink listed without
unlink-Unlinked zero s prev it addr zs h link positive out d apart hit fuel = absurd (omega arith)
unlink-Unlinked (suc f) s prev it addr [] h link positive out d apart hit fuel =
    absurd (ground arith)
unlink-Unlinked (suc f) s prev it addr (x ∷ zs) h link positive out d apart hit fuel =
    let (at, positive_x, (q, e, rest)) = h in
    let not_null : (it == nullptr) ≡ false = ground arith in
    let found_cell : s.cell it ≡ some q = rw at e in
    let prev_not_null : (prev == nullptr) ≡ false = ground arith in
    let prev_ne : (s.memory_of x == s.memory_of prev) ≡ false = ground arith in
    let prev_out : held s.memory_of prev zs ≡ false = ground arith in
    elim (Bool-cases (x == addr)) [
      | inl here ↦
          let s1 = record s {
            cell = set_next s.memory_of s.cell prev q;
            free_pages = decrement s.free_pages;
          } in
          let here_it : (it == addr) ≡ true = ground arith in
          let here' : x ≡ addr = ground arith in
          let gone : listed addr zs ≡ false = rw here' at d.0 in
          let chain1 = Chain-set_next s.memory_of s.cell q prev q zs rest prev_out in
          let self : (s.memory_of prev == s.memory_of prev) ≡ true = ground arith in
          (
            s1,
            rw (unlink, not_null, found_cell, here_it, prev_not_null)
                (unlink-absent f s1 prev q addr zs chain1 gone (omega arith)),
            record {
              chain = (q, rw self, rw here chain1);
              frame = λ a ne out'.
                  let ne' : (s.memory_of a == s.memory_of prev) ≡ false = ground arith in rw ne';
              memory = refl;
              aliased = set_next-Aliased s.memory_of s.cell prev q;
              head = refl;
              counted = refl;
              total = refl;
            },
          )
      | inr other ↦
          let other_it : (it == addr) ≡ false = ground arith in
          let hit' : listed addr zs ≡ true = ground arith in
          let (s1, run, u) =
            unlink-Unlinked f s x q addr zs rest e positive_x apart.0 d.1 apart.1 hit'
              (omega arith) in
          let (q1, e1, chain1) = u.chain in
          (
            s1,
            rw (unlink, not_null, found_cell, other_it, at) run,
            record {
              chain = (
                it,
                u.frame prev (ground arith) prev_out ∙ link,
                rw other (at, positive_x, (q1, e1, chain1)),
              );
              frame = λ a ne out'. u.frame a (ground arith) (ground arith);
              memory = u.memory;
              aliased = u.aliased;
              head = u.head;
              counted = u.counted;
              total = u.total;
            },
          )
    ]
