-- ===== src/Ktl/Pair/Order.antt =====
-- The order of pairs.
use yerp.Ktl.Pair.{Pair, pair_lt}
use yerp.Prelude.{Bool, Bool-cases, arith, false, inl, inr, not, refl, true, ◌&&◌, ◌≡◌, ◌⊎◌}

-- What `<` has to satisfy for sorting and searching: no two elements are before each other, and an
-- element that is before another is before any third one or that one is before the other.
pub record IsWeakOrder {A : Type 0} (lt : A → A → Bool) : Type 0 where
  pub asym : (a b : A) → lt a b ≡ true → lt b a ≡ false
  pub cotrans : (a b c : A) → lt a c ≡ true → (lt a b ≡ true) ⊎ (lt b c ≡ true)

-- Elements that are not before `b` while `b` is not before `c`.
not_before :
    {A : Type 0} {lt : A → A → Bool} (w : IsWeakOrder lt) (a b c : A)
    → lt a b ≡ false
    → lt b c ≡ false
    → lt a c ≡ false
not_before {lt = lt} w a b c h h' = elim (Bool-cases (lt a c)) [
  | inr e ↦ e
  | inl e ↦ elim (w.cotrans a b c e) [
    | inl x ↦ absurd (ground arith)
    | inr x ↦ absurd (ground arith)
  ]
]

second_decides : (x y : Bool) → (not x && y) ≡ true → (x ≡ false) × (y ≡ true)
second_decides true y h = absurd (ground arith)
second_decides false y h = (refl, h)

module _ {A B : Type 0} (lt1 : A → A → Bool) (lt2 : B → B → Bool) (w1 : IsWeakOrder lt1)
    (w2 : IsWeakOrder lt2) where
  pair_lt-asym : (a b : Pair A B) → pair_lt lt1 lt2 a b ≡ true → pair_lt lt1 lt2 b a ≡ false
  unfolding pair_lt
  pair_lt-asym a b h = elim (Bool-cases (lt1 a.pair_first b.pair_first)) [
    | inl before ↦ let behind = w1.asym a.pair_first b.pair_first before in rw (before, behind)
    | inr level ↦
        let (not_behind, before) =
          second_decides (lt1 b.pair_first a.pair_first) (lt2 a.pair_second b.pair_second)
            (rw level at h) in
        rw (not_behind, level) (w2.asym a.pair_second b.pair_second before)
  ]

  pair_lt-cotrans :
      (a b c : Pair A B)
      → pair_lt lt1 lt2 a c ≡ true
      → (pair_lt lt1 lt2 a b ≡ true) ⊎ (pair_lt lt1 lt2 b c ≡ true)
  unfolding pair_lt
  pair_lt-cotrans a b c h = elim (Bool-cases (lt1 a.pair_first b.pair_first)) [
    | inl before ↦ inl (rw before)
    | inr p ↦ elim (Bool-cases (lt1 b.pair_first c.pair_first)) [
      | inl before ↦ inr (rw before)
      | inr q ↦
          let level = not_before w1 a.pair_first b.pair_first c.pair_first p q in
          let (r, before) =
            second_decides (lt1 c.pair_first a.pair_first) (lt2 a.pair_second c.pair_second)
              (rw level at h) in
          elim (w2.cotrans a.pair_second b.pair_second c.pair_second before) [
            | inl x ↦
                let level' = not_before w1 b.pair_first c.pair_first a.pair_first q r in
                inl (rw (p, level') x)
            | inr x ↦
                let level' = not_before w1 c.pair_first a.pair_first b.pair_first r p in
                inr (rw (q, level') x)
          ]
    ]
  ]

  -- `<` of pairs is a weak order when `<` of both members is: it compares the first members, and
  -- the second ones where neither of the first is before the other.
  pub pair_lt-IsWeakOrder : IsWeakOrder (pair_lt lt1 lt2)
  pair_lt-IsWeakOrder = record { asym = pair_lt-asym; cotrans = pair_lt-cotrans }
