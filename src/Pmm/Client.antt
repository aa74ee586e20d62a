-- ===== src/Pmm/Client.antt =====
-- Sequences of calls of `tryAllocate` and `free` against a stack of free pages.
use mathlib.Core.Path.{subst}
use yerp.Memory.{Ptr, nullptr}
use yerp.Pmm.{
  Hhdm, Pmm, Run, allocate, crashed, free, halted, no_rounds, offset, page_size, returned,
  try_allocate, virt_of,
}
use yerp.Pmm.Chain.{IsPmm, held, listed}
use yerp.Pmm.Stack.{allocate-IsPmm, allocate-nil, free-IsPmm, free_refused}
use yerp.Prelude.{
  Bool, Bool-cases, List, Option, [], ap, arith, false, if◌then◌else◌, inl, inr, length, none, refl,
  some, suc, sym, true, ℕ, ◌%◌, ◌+◌, ◌<◌, ◌==◌, ◌^◌, ◌∙◌, ◌∷◌, ◌≡◌, ◌≤◌,
}

pub data Call : Type 0 where
  call_allocate : Call
  call_free : Ptr → Call

-- One run after another.
abbrev pub then_run {ℓ κ} : {A : Type ℓ} {B : Type κ} → Run A → (A → Run B) → Run B
then_run (returned a) k = k a
then_run halted k = halted
then_run crashed k = crashed
then_run no_rounds k = no_rounds

-- The addresses that the allocations of a sequence of calls return, and the state behind it.
unfoldable pub client : ℕ → Hhdm → Pmm → List Call → Run (List (Ptr × Ptr) × Pmm)
client f h s [] = returned ([], s)
client f h s (call_allocate ∷ calls) =
    then_run (try_allocate h s)
      (λ got. then_run (client f h (got.1) calls) (λ rest. returned (got.0 ∷ rest.0, rest.1)))
client f h s (call_free phys ∷ calls) = then_run (free f h s phys) (λ s'. client f h s' calls)

-- The page that `free` links for an address.
abbrev pub linked : Hhdm → Ptr → Ptr
linked h phys = (phys + offset h) % 2 ^ 64

-- The stack of free pages after `free`.
abbrev pub freed : Hhdm → Ptr → List Ptr → List Ptr
freed h phys xs =
    if phys % page_size == 0
    then (if listed (linked h phys) xs then xs else linked h phys ∷ xs)
    else xs

-- What the calls return and leave when the free pages are a stack `xs`.
abbrev pub stack_client : Hhdm → List Ptr → List Call → List (Ptr × Ptr) × List Ptr
stack_client h xs [] = ([], xs)
stack_client h [] (call_allocate ∷ calls) =
    let rest = stack_client h [] calls in ((0, nullptr) ∷ rest.0, rest.1)
stack_client h (x ∷ xs) (call_allocate ∷ calls) =
    let rest = stack_client h xs calls in ((x, virt_of h x) ∷ rest.0, rest.1)
stack_client h xs (call_free phys ∷ calls) = stack_client h (freed h phys xs) calls

abbrev pub is_cell : (Ptr → Option Ptr) → Ptr → Bool
is_cell cell a = elim (cell a) [ none ↦ false | some q ↦ true ]

-- With the free pages on a stack `xs`, every address that the calls free leads to mapped memory,
-- which is not on the stack at that call unless under this very address.
abbrev pub FreesOwn : Hhdm → (Ptr → Ptr) → (Ptr → Option Ptr) → List Ptr → List Call → Type 0
FreesOwn h memory_of cell xs [] = Unit {0}
FreesOwn h memory_of cell [] (call_allocate ∷ calls) = FreesOwn h memory_of cell [] calls
FreesOwn h memory_of cell (x ∷ xs) (call_allocate ∷ calls) = FreesOwn h memory_of cell xs calls
FreesOwn h memory_of cell xs (call_free phys ∷ calls) =
    (0 < linked h phys)
    × (is_cell cell (linked h phys) ≡ true)
    × (held memory_of (linked h phys) xs ≡ listed (linked h phys) xs)
    × FreesOwn h memory_of cell (freed h phys xs) calls

FreesOwn-mono :
    (h : Hhdm) (memory_of : Ptr → Ptr) (cell cell' : Ptr → Option Ptr) (xs : List Ptr)
    (calls : List Call)
    → ((a : Ptr) → is_cell cell a ≡ true → is_cell cell' a ≡ true)
    → FreesOwn h memory_of cell xs calls
    → FreesOwn h memory_of cell' xs calls
FreesOwn-mono h memory_of cell cell' xs [] keep m = tt
FreesOwn-mono h memory_of cell cell' [] (call_allocate ∷ calls) keep m =
    FreesOwn-mono h memory_of cell cell' [] calls keep m
FreesOwn-mono h memory_of cell cell' (x ∷ xs) (call_allocate ∷ calls) keep m =
    FreesOwn-mono h memory_of cell cell' xs calls keep m
FreesOwn-mono h memory_of cell cell' xs (call_free phys ∷ calls) keep m = (
  m.0,
  keep (linked h phys) m.1,
  m.2,
  FreesOwn-mono h memory_of cell cell' (freed h phys xs) calls keep m.3,
)

some_cell :
    (cell : Ptr → Option Ptr) (a : Ptr) → is_cell cell a ≡ true → (q : Ptr) × (cell a ≡ some q)
some_cell cell a h = ground arith

filled_cell : (cell : Ptr → Option Ptr) (a q : Ptr) → cell a ≡ some q → is_cell cell a ≡ true
filled_cell cell a q stored = rw (is_cell, stored)

same_cell :
    (cell cell' : Ptr → Option Ptr) (a : Ptr)
    → cell' a ≡ cell a
    → is_cell cell a ≡ true
    → is_cell cell' a ≡ true
same_cell cell cell' a e there = rw (is_cell, e) there

try_allocate-cons :
    (h : Hhdm) (s s' : Pmm) (x : Ptr) (xs : List Ptr)
    → IsPmm s (x ∷ xs)
    → allocate h s ≡ returned ((x, virt_of h x), s')
    → try_allocate h s ≡ returned ((x, virt_of h x), s')
unfolding try_allocate
try_allocate-cons h s s' x xs v got =
    let at = v.chain.0 in
    let positive = v.chain.1 in
    let there : (s.freelist_head == nullptr) ≡ false = ground arith in
    ap (λ b. if b then returned ((0, nullptr), s) else allocate h s) there ∙ got

-- `free` of an address whose page is mapped.
free-freed :
    (f : ℕ) (h : Hhdm) (s : Pmm) (phys : Ptr) (xs : List Ptr)
    → IsPmm s xs
    → length xs < f
    → 0 < linked h phys
    → is_cell s.cell (linked h phys) ≡ true
    → held s.memory_of (linked h phys) xs ≡ listed (linked h phys) xs
    → suc (length xs) < 2 ^ 52
    → (s' : Pmm) × (free f h s phys ≡ returned s')
      × IsPmm s' (freed h phys xs)
      × ((a : Ptr) → is_cell s.cell a ≡ true → is_cell s'.cell a ≡ true)
      × (s'.memory_of ≡ s.memory_of)
free-freed f h s phys xs v fuel positive mapped own room =
    elim (Bool-cases (phys % page_size == 0)) [
      | inr odd ↦
          (s, free_refused f h s phys xs v fuel (inl (ground arith)), rw odd v, (λ a e. e), refl)
      | inl even ↦ elim (Bool-cases (listed (linked h phys) xs)) [
        | inl twice ↦
            (s, free_refused f h s phys xs v fuel (inr twice), rw (even, twice) v, (λ a e. e), refl)
        | inr once ↦
            let (q, at) = some_cell s.cell (linked h phys) mapped in
            let (s', ran, v', keep, written, head, kept) =
              free-IsPmm f h s phys xs v fuel (ground arith) positive q at (own ∙ once) room in
            (
              s',
              ran,
              rw (even, once) v',
              (λ a there. elim (Bool-cases (s.memory_of a == s.memory_of (linked h phys))) [
                | inl here ↦ filled_cell s'.cell a s.freelist_head (written a (ground arith))
                | inr other ↦ same_cell s.cell s'.cell a (keep a (ground arith)) there
              ]),
              kept,
            )
      ]
    ]

length-freed : (h : Hhdm) (phys : Ptr) (xs : List Ptr) → length (freed h phys xs) ≤ suc (length xs)
length-freed h phys xs = elim (Bool-cases (phys % page_size == 0)) [
  | inr odd ↦ rw odd (omega arith)
  | inl even ↦ elim (Bool-cases (listed (linked h phys) xs)) [
    | inl twice ↦ rw (even, twice) (omega arith)
    | inr once ↦ rw (even, once) (omega arith)
  ]
]

-- A sequence of calls of `tryAllocate` and `free` in which every freed address leads, in the
-- higher half, to mapped memory that is not free at that call under another address, runs to its
-- end, and returns what the same calls on a stack of pages return: an allocation takes the page on
-- top, or returns null addresses when there is none, and `free` puts the address in the higher
-- half on top, unless the freed address is no multiple of the page size or the address in the
-- higher half is on the stack already. The free list is this stack afterwards. The fuel and the
-- bound on the number of pages are for every page of the list and every call.
pub client-stack_client :
    (f : ℕ) (h : Hhdm) (s : Pmm) (xs : List Ptr) (calls : List Call)
    → IsPmm s xs
    → FreesOwn h s.memory_of s.cell xs calls
    → length xs + length calls < f
    → length xs + length calls < 2 ^ 52
    → (s' : Pmm) × (client f h s calls ≡ returned ((stack_client h xs calls).0, s'))
      × IsPmm s' (stack_client h xs calls).1
unfolding client
client-stack_client f h s xs [] v m fuel room = (s, refl, v)
client-stack_client f h s [] (call_allocate ∷ calls) v m fuel room =
    let (s', ran, v') = client-stack_client f h s [] calls v m (omega arith) (omega arith) in
    (s', rw ((allocate-nil h s v).1, ran), v')
client-stack_client f h s (x ∷ xs) (call_allocate ∷ calls) v m fuel room =
    let (s1, got, v1, gone, total, cells, kept) = allocate-IsPmm h s x xs v in
    let (s', ran, v') =
      client-stack_client f h s1 xs calls v1 (rw (cells, kept) m) (omega arith) (omega arith) in
    (s', rw (try_allocate-cons h s s1 x xs v got, ran), v')
client-stack_client f h s xs (call_free phys ∷ calls) v m fuel room =
    let (s1, ran, v1, keep, kept) =
      free-freed f h s phys xs v (omega arith) m.0 m.1 m.2 (omega arith) in
    let short = length-freed h phys xs in
    let (s', rest_ran, v') =
      client-stack_client f h s1 (freed h phys xs) calls v1
        (subst (λ k. FreesOwn h k s1.cell (freed h phys xs) calls) (sym kept)
          (FreesOwn-mono h s.memory_of s.cell s1.cell (freed h phys xs) calls keep m.3))
        (omega (arith, short)) (omega (arith, short)) in
    (s', rw (ran, rest_ran), v')
