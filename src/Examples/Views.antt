-- ===== src/Examples/Views.antt =====
-- The members of `string_view` and of `slice` at single inputs.
use yerp.Ktl.Slice.{Slice, first, last, slice_remove_prefix, slice_remove_suffix, subslice}
use yerp.Ktl.Slice.Elements.{elements_of, subslice-elements_of}
use yerp.Ktl.StringView.{
  StringView, compare, compare_loop, length_loop, remove_prefix, remove_suffix, substr, view_eq,
  view_lt, view_of,
}
use yerp.Ktl.StringView.Order.{Ordered, Precedes, compare-Ordered}
use yerp.Ktl.StringView.Part.{Views, substr-Views}
use yerp.Memory.{Memory, done, load}
use yerp.Memory.Text.{IsCStr}
use yerp.Prelude.{
  Bool, List, [], arith, drop, if◌then◌else◌, none, refl, some, take, true, ℕ, ◌*◌, ◌+◌, ◌-◌, ◌<◌,
  ◌==◌, ◌^◌, ◌↔◌, ◌∷◌, ◌≡◌,
}
use yerp.Prelude.Int.{negsuc, ℤ}

-- "ab" at 100 and "ac" at 200.
abbrev names : Memory
names a =
    if a == 100
    then some 97
    else (if a == 101
        then some 98
        else (if a == 102
            then some 0
            else (if a == 200
                then some 97
                else (if a == 201 then some 99 else (if a == 202 then some 0 else none)))))

abbrev ab : List ℕ
ab = 97 ∷ 98 ∷ []

abbrev ac : List ℕ
ac = 97 ∷ 99 ∷ []

ab_stands : IsCStr names 100 ab
ab_stands = (refl, omega arith, omega arith, (refl, omega arith, omega arith, refl))

ac_stands : IsCStr names 200 ac
ac_stands = (refl, omega arith, omega arith, (refl, omega arith, omega arith, refl))

abbrev first_view : StringView
first_view = record { view_data = 100; view_size = 2 }

abbrev second_view : StringView
second_view = record { view_data = 200; view_size = 2 }

compare-Ordered_example :
    (r : ℤ) × (compare names first_view second_view ≡ done r)
    × Ordered ab ac r
    × ((is_before is_same : Bool) × (view_lt names first_view second_view ≡ done is_before)
        × (view_eq names first_view second_view ≡ done is_same)
        × ((is_before ≡ true) ↔ Precedes ab ac)
        × ((is_same ≡ true) ↔ (ab ≡ ac)))
compare-Ordered_example =
    compare-Ordered names first_view second_view ab ac (refl, (refl, tt)) (refl, (refl, tt)) refl
      refl (omega arith, (omega arith, tt)) (omega arith, (omega arith, tt))

compare_run : compare names first_view second_view ≡ done (negsuc 0)
unfolding compare compare_loop load
compare_run = refl

substr-Views_example :
    Views names (substr first_view 1 5) (take 5 (drop 1 ab))
    × Views names (remove_prefix first_view 1) (drop 1 ab)
    × Views names (remove_suffix first_view 1) (take (2 - 1) ab)
    × ((excess : ℕ)
        → 0 < excess
        → 2 + excess < 2 ^ 64
        → (remove_prefix first_view (2 + excess)).view_size ≡ 2 ^ 64 - excess)
substr-Views_example =
    substr-Views names first_view ab 1 5 1 ((refl, (refl, tt)), refl) (omega arith) (omega arith)

view_run : view_of 3 names 100 ≡ done first_view
unfolding view_of length_loop load
view_run = refl

-- The elements 0, 10, 20, 30 and 40 from the index 3 on.
abbrev tens : ℕ → ℕ
tens i = (i - 3) * 10

abbrev five : Slice
five = record { slice_data = 3; slice_size = 5 }

subslice-elements_of_example :
    (elements_of tens (subslice five 1 2) ≡ take 2 (drop 1 (elements_of tens five)))
    × (elements_of tens (first five 2) ≡ take 2 (elements_of tens five))
    × (elements_of tens (last five 2) ≡ drop (5 - 2) (elements_of tens five))
    × (elements_of tens (last five 6) ≡ [])
    × (elements_of tens (slice_remove_prefix five 2) ≡ drop 2 (elements_of tens five))
    × (elements_of tens (slice_remove_suffix five 2) ≡ take (5 - 2) (elements_of tens five))
    × (elements_of tens (slice_remove_prefix five 6) ≡ [])
    × (elements_of tens (slice_remove_suffix five 6) ≡ [])
subslice-elements_of_example =
    subslice-elements_of tens five 1 2 2 6 (omega arith) (omega arith) (omega arith) (omega arith)
      (omega arith)

last_run : elements_of tens (last five 2) ≡ 30 ∷ 40 ∷ []
unfolding last subslice
last_run = refl

-- The data of this slice does not stand in the array.
last_behind : (last five 6).slice_data ≡ 3 + 18446744073709551615
unfolding last subslice
last_behind = refl
