-- ===== src/Ktl/StringView/Order.antt =====
-- `compare` of kernel/Source/ktl/string_view against the lexicographic order of texts, in which the
-- characters are ordered as signed numbers.
use yerp.Ktl.StringView.{StringView, compare, compare_loop, view_eq, view_lt}
use yerp.Memory.{Memory, Ptr, done, load-eq}
use yerp.Memory.Text.{Holds}
use yerp.Prelude.{
  All, Bool, Bool-cases, List, Option, [], ap, arith, false, if◌then◌else◌, inl, inr, length, ltb,
  min, none, refl, some, suc, true, ℕ, ◌+◌, ◌<◌, ◌↔◌, ◌∙◌, ◌∷◌, ◌≡◌, ◌⊎◌,
}
use yerp.Prelude.Int.{eq_ℤ, ltb_ℤ, negsuc, pos, to_char, ℤ}

-- `xs` is before `ys`: it is a proper first part of it, or the characters at the first place where
-- they differ are in this order.
abbrev pub Precedes : List ℕ → List ℕ → Type 0
Precedes xs [] = ⊥
Precedes [] (y ∷ ys) = Unit {0}
Precedes (x ∷ xs) (y ∷ ys) = (ltb_ℤ (to_char x) (to_char y) ≡ true) ⊎ ((x ≡ y) × Precedes xs ys)

pub data Ordered (xs ys : List ℕ) (r : ℤ) : Type 0 where
  first_precedes : r ≡ negsuc 0 → Precedes xs ys → Ordered xs ys r
  second_precedes : r ≡ pos 1 → Precedes ys xs → Ordered xs ys r
  equal_texts : r ≡ pos 0 → xs ≡ ys → Ordered xs ys r

Ordered-cons : (x : ℕ) {xs ys : List ℕ} {r : ℤ} → Ordered xs ys r → Ordered (x ∷ xs) (x ∷ ys) r
Ordered-cons x (first_precedes e p) = first_precedes e (inr (refl, p))
Ordered-cons x (second_precedes e p) = second_precedes e (inr (refl, p))
Ordered-cons x (equal_texts e p) = equal_texts e (ap (λ l. x ∷ l) p)

-- Two bytes of which neither is before the other as a `char` are equal.
same_byte :
    (a b : ℕ)
    → a < 256
    → b < 256
    → ltb_ℤ (to_char a) (to_char b) ≡ false
    → ltb_ℤ (to_char b) (to_char a) ≡ false
    → a ≡ b
same_byte a b ha hb h h' = ground arith

-- What `compare` makes of the loop's result.
abbrev pub by_size : ℕ → ℕ → Option ℤ → ℤ
by_size n k (some r) = r
by_size n k none = if ltb n k then negsuc 0 else (if ltb k n then pos 1 else pos 0)

by_size-suc : (n k : ℕ) (o : Option ℤ) → by_size (suc n) (suc k) o ≡ by_size n k o
by_size-suc n k (some r) = refl
by_size-suc n k none = ground arith

compare_loop-Ordered :
    (m : Memory) (p q : Ptr) (xs ys : List ℕ)
    → Holds m p xs
    → Holds m q ys
    → All (λ x. x < 256) xs
    → All (λ y. y < 256) ys
    → (o : Option ℤ) × (compare_loop (min (length xs) (length ys)) m p q ≡ done o)
      × Ordered xs ys (by_size (length xs) (length ys) o)
unfolding compare_loop
compare_loop-Ordered m p q [] [] hx hy bx by = (none, refl, equal_texts refl refl)
compare_loop-Ordered m p q [] (y ∷ ys) hx hy bx by =
    let no_round : min 0 (suc (length ys)) ≡ 0 = omega arith in
    (none, rw no_round, first_precedes (ground arith) tt)
compare_loop-Ordered m p q (x ∷ xs) [] hx hy bx by =
    let no_round : min (suc (length xs)) 0 ≡ 0 = omega arith in
    (none, rw no_round, second_precedes (ground arith) tt)
compare_loop-Ordered m p q (x ∷ xs) (y ∷ ys) hx hy bx by =
    let (o, rest_run, ordered) = compare_loop-Ordered m (p + 1) (q + 1) xs ys hx.1 hy.1 bx.1 by.1 in
    let at = load-eq m p x hx.0 in
    let at' = load-eq m q y hy.0 in
    let round : min (suc (length xs)) (suc (length ys)) ≡ suc (min (length xs) (length ys)) =
      omega arith in
    elim (Bool-cases (ltb_ℤ (to_char x) (to_char y))) [
      | inl lt ↦
          (some (negsuc 0), rw (round, compare_loop, at, at', lt), first_precedes refl (inl lt))
      | inr ge ↦ elim (Bool-cases (ltb_ℤ (to_char y) (to_char x))) [
        | inl gt ↦
            (some (pos 1), rw (round, compare_loop, at, at', ge, gt), second_precedes refl (inl gt))
        | inr le ↦
            let same_head : x ≡ y = same_byte x y bx.0 by.0 ge le in
            (
              o,
              rw (round, compare_loop, at, at', ge, le, rest_run),
              rw (← same_head)
                  (Ordered-cons x (rw (by_size-suc (length xs) (length ys) o) ordered)),
            )
      ]
    ]

pub char_trans : (a b c : ℤ) → ltb_ℤ a b ≡ true → ltb_ℤ b c ≡ true → ltb_ℤ a c ≡ true
char_trans a b c h h' = ground arith

char_irrefl : (a : ℤ) → ltb_ℤ a a ≡ true → ⊥
char_irrefl a h = ground arith

Precedes-irrefl : (xs : List ℕ) → Precedes xs xs → ⊥
Precedes-irrefl [] p = p
Precedes-irrefl (x ∷ xs) (inl lt) = char_irrefl (to_char x) lt
Precedes-irrefl (x ∷ xs) (inr p) = Precedes-irrefl xs p.1

Precedes-trans : (xs ys zs : List ℕ) → Precedes xs ys → Precedes ys zs → Precedes xs zs
Precedes-trans [] [] zs p q = absurd p
Precedes-trans (x ∷ xs) [] zs p q = absurd p
Precedes-trans [] (y ∷ ys) [] p q = q
Precedes-trans (x ∷ xs) (y ∷ ys) [] p q = q
Precedes-trans [] (y ∷ ys) (z ∷ zs) p q = tt
Precedes-trans (x ∷ xs) (y ∷ ys) (z ∷ zs) (inl lt) (inl lt') =
    inl (char_trans (to_char x) (to_char y) (to_char z) lt lt')
Precedes-trans (x ∷ xs) (y ∷ ys) (z ∷ zs) (inl lt) (inr q) = inl (rw q.0 at lt)
Precedes-trans (x ∷ xs) (y ∷ ys) (z ∷ zs) (inr p) (inl lt') = inl (rw (← p.0) at lt')
Precedes-trans (x ∷ xs) (y ∷ ys) (z ∷ zs) (inr p) (inr q) =
    inr (p.0 ∙ q.0, Precedes-trans xs ys zs p.1 q.1)

-- `<` and `==` by the result of `compare`.
results :
    (xs ys : List ℕ) (r : ℤ)
    → Ordered xs ys r
    → ((ltb_ℤ r (pos 0) ≡ true) ↔ Precedes xs ys) × ((eq_ℤ r (pos 0) ≡ true) ↔ (xs ≡ ys))
results xs ys r (first_precedes e p) = rw e (
  ((λ h. p), (λ h. refl)),
  ((λ h. absurd (ground arith)), (λ h. absurd (Precedes-irrefl ys (rw h at p)))),
)
results xs ys r (second_precedes e p) = rw e (
  ((λ h. absurd (ground arith)), (λ h. absurd (Precedes-irrefl xs (Precedes-trans xs ys xs h p)))),
  ((λ h. absurd (ground arith)), (λ h. absurd (Precedes-irrefl ys (rw h at p)))),
)
results xs ys r (equal_texts e p) = rw e (
  ((λ h. absurd (ground arith)), (λ h. absurd (Precedes-irrefl ys (rw p at h)))),
  ((λ h. p), (λ h. refl)),
)

-- For two views over bytes, `compare` returns, and its result is -1, 1 or 0 as the first text is
-- before the second in the lexicographic order of signed characters, behind it, or the same text;
-- `<` is true exactly in the first case and `==` exactly in the last.
pub compare-Ordered :
    (m : Memory) (v w : StringView) (xs ys : List ℕ)
    → Holds m v.view_data xs
    → Holds m w.view_data ys
    → length xs ≡ v.view_size
    → length ys ≡ w.view_size
    → All (λ x. x < 256) xs
    → All (λ y. y < 256) ys
    → (r : ℤ) × (compare m v w ≡ done r)
      × Ordered xs ys r
      × ((is_before is_same : Bool) × (view_lt m v w ≡ done is_before)
          × (view_eq m v w ≡ done is_same)
          × ((is_before ≡ true) ↔ Precedes xs ys)
          × ((is_same ≡ true) ↔ (xs ≡ ys)))
unfolding compare view_lt view_eq
compare-Ordered m v w xs ys hx hy size size' bx by =
    let (o, loop_run, in_order) =
      compare_loop-Ordered m v.view_data w.view_data xs ys hx hy bx by in
    let r = by_size v.view_size w.view_size o in
    let ordered : Ordered xs ys r = rw (size, size') at in_order in
    let looped = rw (size, size') at loop_run in
    let compared : compare m v w ≡ done r = rw looped in
    let (below, equal) = results xs ys r ordered in
    (
      r,
      compared,
      ordered,
      (ltb_ℤ r (pos 0), eq_ℤ r (pos 0), rw compared, rw compared, below, equal),
    )
