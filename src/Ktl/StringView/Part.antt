-- ===== src/Ktl/StringView/Part.antt =====
-- The members of kernel/Source/ktl/string_view that yield a part of a view, and the constructor
-- from a string.
use yerp.Ktl.StringView.{StringView, remove_prefix, remove_suffix, substr}
use yerp.Memory.{Memory}
use yerp.Memory.Text.{Holds}
use yerp.Prelude.{
  Bool-cases, List, [], arith, drop, if◌then◌else◌, inl, inr, length, length-drop, length-take, ltb,
  refl, suc, take, zero, ℕ, ◌%◌, ◌+◌, ◌-◌, ◌<◌, ◌^◌, ◌∷◌, ◌≡◌, ◌≤◌,
}

-- The view `v` is over the bytes `xs`.
abbrev pub Views : Memory → StringView → List ℕ → Type 0
Views m v xs = Holds m v.view_data xs × (v.view_size ≡ length xs)

Holds-drop : (m : Memory) (p n : ℕ) (xs : List ℕ) → Holds m p xs → Holds m (p + n) (drop n xs)
Holds-drop m p zero xs h = let e : p + 0 ≡ p = omega arith in rw e h
Holds-drop m p (suc n) [] h = tt
Holds-drop m p (suc n) (x ∷ xs) h =
    let e : p + suc n ≡ p + 1 + n = omega arith in rw e (Holds-drop m (p + 1) n xs h.1)

Holds-take : (m : Memory) (p n : ℕ) (xs : List ℕ) → Holds m p xs → Holds m p (take n xs)
Holds-take m p zero xs h = tt
Holds-take m p (suc n) [] h = tt
Holds-take m p (suc n) (x ∷ xs) h = (h.0, Holds-take m (p + 1) n xs h.1)

drop_all : (n : ℕ) (xs : List ℕ) → length xs ≤ n → drop n xs ≡ []
drop_all zero [] h = refl
drop_all (suc n) [] h = refl
drop_all zero (x ∷ xs) h = absurd (omega arith)
drop_all (suc n) (x ∷ xs) h = drop_all n xs (omega arith)

pub take_nil : (n : ℕ) → take {A = ℕ} n [] ≡ []
take_nil zero = refl
take_nil (suc n) = refl

-- The size that `substr` gives.
cut_size :
    (size count : ℕ) (xs : List ℕ)
    → size ≡ length xs
    → (if ltb count size then count else size) ≡ length (take count xs)
cut_size size count xs e = rw (length-take count xs, e) (ground arith)

-- For a view over the bytes `xs`, fewer than 2 ^ 64: `substr` from `offset` on, of `count`
-- characters, is a view over the `count` bytes behind the first `offset` ones, or over those that
-- there are; `remove_prefix` of at most its size is a view over the bytes behind the removed ones,
-- and `remove_suffix` over those before them. To remove a prefix that is longer than the view
-- leaves the size 2 ^ 64 less the excess.
pub substr-Views :
    (m : Memory) (v : StringView) (xs : List ℕ) (offset count n : ℕ)
    → Views m v xs
    → v.view_size < 2 ^ 64
    → n ≤ v.view_size
    → Views m (substr v offset count) (take count (drop offset xs))
      × Views m (remove_prefix v n) (drop n xs)
      × Views m (remove_suffix v n) (take (v.view_size - n) xs)
      × ((excess : ℕ)
          → 0 < excess
          → v.view_size + excess < 2 ^ 64
          → (remove_prefix v (v.view_size + excess)).view_size ≡ 2 ^ 64 - excess)
unfolding substr remove_prefix remove_suffix
substr-Views m v xs offset count n h word fits =
    let dropped : (v.view_size + 2 ^ 64 - n) % 2 ^ 64 ≡ v.view_size - n = omega arith in
    (
      elim (Bool-cases (ltb v.view_size offset)) [
        | inl past ↦
            let none_left : drop offset xs ≡ [] = drop_all offset xs (ground arith) in
            let no_size : v.view_size - v.view_size ≡ 0 = omega arith in
            rw (past, none_left, take_nil count, no_size) (tt, ground arith)
        | inr within ↦ rw within (
          Holds-take m (v.view_data + offset) count (drop offset xs)
              (Holds-drop m v.view_data offset xs h.0),
          cut_size (v.view_size - offset) count (drop offset xs) (rw (length-drop offset xs, h.1)),
        )
      ],
      (Holds-drop m v.view_data n xs h.0, rw (dropped, length-drop n xs, h.1)),
      (
        Holds-take m v.view_data (v.view_size - n) xs h.0,
        rw (dropped, length-take (v.view_size - n) xs) (let e = h.1 in omega arith),
      ),
      (λ excess some_more small. omega arith),
    )
