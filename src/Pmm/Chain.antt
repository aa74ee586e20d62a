-- ===== src/Pmm/Chain.antt =====
-- The free list as a list of page addresses.
use yerp.Memory.{Ptr, nullptr}
use yerp.Pmm.{Pmm, on_freelist, returned, set_next}
use yerp.Prelude.{
  Bool, Bool-cases, List, Option, [], arith, false, inl, inr, length, map, refl, some, suc, true,
  zero, ℕ, ◌<◌, ◌==◌, ◌^◌, ◌||◌, ◌∷◌, ◌≡◌,
}

-- From `p` the `next` pointers lead through the pages `xs` to a null pointer.
abbrev pub Chain : (Ptr → Option Ptr) → Ptr → List Ptr → Type 0
Chain cell p [] = p ≡ nullptr
Chain cell p (x ∷ xs) = (p ≡ x) × (0 < x) × ((q : Ptr) × (cell x ≡ some q) × Chain cell q xs)

unfoldable pub listed : Ptr → List Ptr → Bool
listed a [] = false
listed a (x ∷ xs) = (x == a) || listed a xs

abbrev pub Distinct : List Ptr → Type 0
Distinct [] = Unit {0}
Distinct (x ∷ xs) = (listed x xs ≡ false) × Distinct xs

-- One of the pages `xs` is the memory that `a` leads to, under this address or another.
abbrev pub held : (Ptr → Ptr) → Ptr → List Ptr → Bool
held memory_of a xs = listed (memory_of a) (map memory_of xs)

-- What is read at one address of a page is read at each.
abbrev pub Aliased : (Ptr → Ptr) → (Ptr → Option Ptr) → Type 0
Aliased memory_of cell = (a b : Ptr) → memory_of a ≡ memory_of b → cell a ≡ cell b

pub set_next-Aliased :
    (memory_of : Ptr → Ptr) (cell : Ptr → Option Ptr) (p q : Ptr)
    → Aliased memory_of cell
    → Aliased memory_of (set_next memory_of cell p q)
set_next-Aliased memory_of cell p q aliased a b e = elim (Bool-cases (memory_of b == memory_of p)) [
  | inl here ↦ let there : (memory_of a == memory_of p) ≡ true = ground arith in rw (here, there)
  | inr other ↦
      let away : (memory_of a == memory_of p) ≡ false = ground arith in
      rw (other, away) (aliased a b e)
]

-- The state keeps the free list `xs`, each page once and under one address only, and counts it.
pub record IsPmm (s : Pmm) (xs : List Ptr) : Type 0 where
  pub chain : Chain s.cell s.freelist_head xs
  pub distinct : Distinct xs
  pub apart : Distinct (map s.memory_of xs)
  pub aliased : Aliased s.memory_of s.cell
  pub count : s.free_pages ≡ length xs
  pub bounded : length xs < 2 ^ 52

-- A write to a page that is not on the list, under any address, keeps the list.
pub Chain-set_next :
    (memory_of : Ptr → Ptr) (cell : Ptr → Option Ptr) (p a q : Ptr) (xs : List Ptr)
    → Chain cell p xs
    → held memory_of a xs ≡ false
    → Chain (set_next memory_of cell a q) p xs
unfolding listed
Chain-set_next memory_of cell p a q [] h out = h
Chain-set_next memory_of cell p a q (x ∷ xs) h out =
    let ne : (memory_of x == memory_of a) ≡ false = ground arith in
    let rest : held memory_of a xs ≡ false = ground arith in
    (h.0, h.1, (h.2.0, rw ne h.2.1, Chain-set_next memory_of cell h.2.0 a q xs h.2.2 rest))

-- A page that is not on the list under any address is not on it under its own.
pub listed-held :
    (memory_of : Ptr → Ptr) (a : Ptr) (xs : List Ptr)
    → held memory_of a xs ≡ false
    → listed a xs ≡ false
unfolding listed
listed-held memory_of a [] out = refl
listed-held memory_of a (x ∷ xs) out = elim (Bool-cases (x == a)) [
  | inl here ↦
      let here' : x ≡ a = ground arith in
      let hit : (memory_of x == memory_of a) ≡ true = rw here' (ground arith) in
      absurd (ground arith)
  | inr other ↦ rw other (listed-held memory_of a xs (ground arith))
]

-- Where every page of the list lies at its own address, only addresses count.
pub held-listed :
    (memory_of : Ptr → Ptr) (a : Ptr) (xs : List Ptr)
    → memory_of a ≡ a
    → map memory_of xs ≡ xs
    → held memory_of a xs ≡ listed a xs
held-listed memory_of a xs e es = rw (e, es)

pub on_freelist-listed :
    (f : ℕ) (cell : Ptr → Option Ptr) (p page : Ptr) (xs : List Ptr)
    → Chain cell p xs
    → length xs < f
    → on_freelist f cell p page ≡ returned (listed page xs)
unfolding on_freelist listed
on_freelist-listed zero cell p page xs h fuel = absurd (omega arith)
on_freelist-listed (suc f) cell p page [] h fuel = rw (h, on_freelist)
on_freelist-listed (suc f) cell p page (x ∷ xs) h fuel =
    let (at, positive, (q, e, rest)) = h in
    ground (arith, at, positive, e, on_freelist-listed f cell q page xs rest (omega arith))
