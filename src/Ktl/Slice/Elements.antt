-- ===== src/Ktl/Slice/Elements.antt =====
-- The elements that the members of kernel/Source/ktl/slice lead to.
use mathlib.Core.List.{head-eq_of_cons-eq, tail-eq_of_cons-eq}
use yerp.Ktl.Slice.{
  Slice, equal_loop, first, last, slice_eq, slice_remove_prefix, slice_remove_suffix, subslice,
}
use yerp.Ktl.StringView.Part.{take_nil}
use yerp.Prelude.{
  Bool-cases, List, [], ap, arith, drop, false, inl, inr, length, length-drop, ltb, min, refl, suc,
  sym, take, true, zero, ℕ, ◌%◌, ◌+◌, ◌-◌, ◌<◌, ◌==◌, ◌^◌, ◌↔◌, ◌∙◌, ◌∷◌, ◌≡◌, ◌≤◌,
}

-- The `n` elements from `i` on.
abbrev pub from_cell : (ℕ → ℕ) → ℕ → ℕ → List ℕ
from_cell cells zero i = []
from_cell cells (suc n) i = cells i ∷ from_cell cells n (i + 1)

abbrev pub elements_of : (ℕ → ℕ) → Slice → List ℕ
elements_of cells s = from_cell cells s.slice_size s.slice_data

drop-from_cell :
    (cells : ℕ → ℕ) (k n i : ℕ) → drop k (from_cell cells n i) ≡ from_cell cells (n - k) (i + k)
drop-from_cell cells zero n i =
    let n' : n - 0 ≡ n = omega arith in let i' : i + 0 ≡ i = omega arith in rw (n', i')
drop-from_cell cells (suc k) zero i = let none_left : 0 - suc k ≡ 0 = omega arith in rw none_left
drop-from_cell cells (suc k) (suc n) i =
    let n' : suc n - suc k ≡ n - k = omega arith in
    let i' : i + suc k ≡ i + 1 + k = omega arith in rw (n', i') (drop-from_cell cells k n (i + 1))

take-from_cell :
    (cells : ℕ → ℕ) (k n i : ℕ) → take k (from_cell cells n i) ≡ from_cell cells (min k n) i
take-from_cell cells zero n i = let few : min 0 n ≡ 0 = omega arith in rw few
take-from_cell cells (suc k) zero i = let few : min (suc k) 0 ≡ 0 = omega arith in rw few
take-from_cell cells (suc k) (suc n) i =
    let few : min (suc k) (suc n) ≡ suc (min k n) = omega arith in
    rw few (ap (◌∷◌ (cells i)) (take-from_cell cells k n (i + 1)))

subslice-size :
    (s : Slice) (offset count : ℕ)
    → s.slice_size < 2 ^ 64 - 1
    → count < 2 ^ 64
    → (subslice s offset count).slice_size ≡ min count (s.slice_size - offset)
unfolding subslice
subslice-size s offset count size word = ground arith

-- A part of the elements.
part_of :
    (cells : ℕ → ℕ) (s : Slice) (offset count : ℕ)
    → s.slice_size < 2 ^ 64 - 1
    → count < 2 ^ 64
    → elements_of cells (subslice s offset count) ≡ take count (drop offset (elements_of cells s))
unfolding subslice
part_of cells s offset count size word =
    ap (λ k. from_cell cells k (s.slice_data + offset)) (subslice-size s offset count size word)
    ∙ sym (
        ap (take count) (drop-from_cell cells offset s.slice_size s.slice_data)
        ∙ take-from_cell cells count (s.slice_size - offset) (s.slice_data + offset))

-- To take as many elements as there are.
take_all : (n : ℕ) (xs : List ℕ) → length xs ≡ n → take n xs ≡ xs
take_all zero [] e = refl
take_all (suc n) [] e = refl
take_all zero (x ∷ xs) e = absurd (omega arith)
take_all (suc n) (x ∷ xs) e = ap (◌∷◌ x) (take_all n xs (omega arith))

length-from_cell : (cells : ℕ → ℕ) (n i : ℕ) → length (from_cell cells n i) ≡ n
length-from_cell cells zero i = refl
length-from_cell cells (suc n) i = ap suc (length-from_cell cells n (i + 1))

-- For a slice of fewer than 2 ^ 64 - 1 elements and counts of 64 bits: `subslice` from `offset`
-- on, of `count` elements, leads to the `count` elements behind the first `offset` ones, or to
-- those that there are; `first` to the first ones, `last` of at most the size to the last ones,
-- and `remove_prefix` and `remove_suffix` to those that are left, none when more are removed than
-- there are. `last` of more than the size leads to none.
pub subslice-elements_of :
    (cells : ℕ → ℕ) (s : Slice) (offset count n more : ℕ)
    → s.slice_size < 2 ^ 64 - 1
    → count < 2 ^ 64
    → n ≤ s.slice_size
    → s.slice_size < more
    → more < 2 ^ 64
    → (elements_of cells (subslice s offset count) ≡ take count (drop offset (elements_of cells s)))
      × (elements_of cells (first s count) ≡ take count (elements_of cells s))
      × (elements_of cells (last s n) ≡ drop (s.slice_size - n) (elements_of cells s))
      × (elements_of cells (last s more) ≡ [])
      × (elements_of cells (slice_remove_prefix s n) ≡ drop n (elements_of cells s))
      × (elements_of cells (slice_remove_suffix s n)
          ≡ take (s.slice_size - n) (elements_of cells s))
      × (elements_of cells (slice_remove_prefix s more) ≡ [])
      × (elements_of cells (slice_remove_suffix s more) ≡ [])
unfolding first last slice_remove_prefix slice_remove_suffix
subslice-elements_of cells s offset count n more size word fits above small =
    let back : (s.slice_size + 2 ^ 64 - n) % 2 ^ 64 ≡ s.slice_size - n = omega arith in
    let nothing : s.slice_size - (s.slice_size + 2 ^ 64 - more) % 2 ^ 64 ≡ 0 = omega arith in
    let total = length-from_cell cells s.slice_size s.slice_data in
    let few : min (s.slice_size - n) s.slice_size ≡ s.slice_size - n = omega arith in
    let kept : ltb s.slice_size n ≡ false = ground arith in
    let all_gone : ltb s.slice_size more ≡ true = ground arith in
    let none_left : s.slice_size - s.slice_size ≡ 0 = omega arith in
    (
      part_of cells s offset count size word,
      part_of cells s 0 count size word,
      part_of cells s ((s.slice_size + 2 ^ 64 - n) % 2 ^ 64) n size (omega arith)
          ∙ ap (λ k. take n (drop k (elements_of cells s))) back
          ∙ take_all n (drop (s.slice_size - n) (elements_of cells s))
              (rw (length-drop (s.slice_size - n) (elements_of cells s), total) (omega arith)),
      part_of cells s ((s.slice_size + 2 ^ 64 - more) % 2 ^ 64) more size small
          ∙ ap (take more) (
              drop-from_cell cells ((s.slice_size + 2 ^ 64 - more) % 2 ^ 64) s.slice_size
                s.slice_data
              ∙ ap (λ k. from_cell cells k (s.slice_data + (s.slice_size + 2 ^ 64 - more) % 2 ^ 64))
                  nothing)
          ∙ take_nil more,
      rw kept (sym (drop-from_cell cells n s.slice_size s.slice_data)),
      rw kept (
          sym (
            take-from_cell cells (s.slice_size - n) s.slice_size s.slice_data
            ∙ ap (λ k. from_cell cells k s.slice_data) few)),
      rw (all_gone, none_left),
      rw (all_gone, none_left),
    )

cons_congr : {x y : ℕ} {xs ys : List ℕ} → x ≡ y → xs ≡ ys → x ∷ xs ≡ y ∷ ys
cons_congr e e' = rw (e, e')

equal_loop_iff :
    (cells : ℕ → ℕ) (a b : Slice) (n i : ℕ)
    → (equal_loop cells a b n i ≡ true)
      ↔ (from_cell cells n (a.slice_data + i) ≡ from_cell cells n (b.slice_data + i))
unfolding equal_loop
equal_loop_iff cells a b zero i = ((λ e. refl), (λ e. refl))
equal_loop_iff cells a b (suc n) i =
    let up : a.slice_data + (i + 1) ≡ a.slice_data + i + 1 = omega arith in
    let up' : b.slice_data + (i + 1) ≡ b.slice_data + i + 1 = omega arith in
    let later_on = equal_loop_iff cells a b n (i + 1) in
    let rest = rw (up, up') at later_on in
    elim (Bool-cases (cells (a.slice_data + i) == cells (b.slice_data + i))) [
      | inl e ↦
          let e' : cells (a.slice_data + i) ≡ cells (b.slice_data + i) = ground arith in
          rw e ((λ h. cons_congr e' (rest.0 h)), (λ h. rest.1 (tail-eq_of_cons-eq h)))
      | inr ne ↦ rw ne (
        (λ h. absurd (ground arith)),
        (λ h. let e' = head-eq_of_cons-eq h in absurd (ground arith)),
      )
    ]

-- `==` of two slices of numbers is true exactly when they have the same elements.
pub slice_eq_iff :
    (cells : ℕ → ℕ) (a b : Slice)
    → (slice_eq cells a b ≡ true) ↔ (elements_of cells a ≡ elements_of cells b)
unfolding slice_eq
slice_eq_iff cells a b = elim (Bool-cases (a.slice_size == b.slice_size)) [
  | inl e ↦
      let e' : a.slice_size ≡ b.slice_size = ground arith in
      let at : a.slice_data + 0 ≡ a.slice_data = omega arith in
      let at' : b.slice_data + 0 ≡ b.slice_data = omega arith in
      let looped = equal_loop_iff cells a b a.slice_size 0 in
      let same_size = rw (at, at') at looped in rw e (rw (← e') same_size)
  | inr ne ↦ rw ne (
    (λ h. absurd (ground arith)),
    (λ h.
        let lengths = ap length h in
        let here = length-from_cell cells a.slice_size a.slice_data in
        let there = length-from_cell cells b.slice_size b.slice_data in
        absurd (ground (arith, lengths, here, there))),
  )
]
