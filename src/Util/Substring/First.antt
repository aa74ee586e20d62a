-- ===== src/Util/Substring/First.antt =====
-- `strstr` finds the first occurrence.
use mathlib.Core.List.{nil≢cons, tail-eq_of_cons-eq}
use yerp.Memory.{Memory, Ptr, done, load-eq, nullptr}
use yerp.Memory.Text.{IsCStr, nonzero}
use yerp.Prelude.{
  Bool, Bool-cases, List, [], ap, arith, false, inl, inr, length, refl, suc, true, zero, ℕ, ◌&&◌,
  ◌++◌, ◌+◌, ◌<◌, ◌==◌, ◌∙◌, ◌∷◌, ◌≡◌, ◌≢◌, ◌≤◌,
}
use yerp.Util.Substring.{match_end, strstr, strstr_loop}

abbrev pub is_prefix : List ℕ → List ℕ → Bool
is_prefix [] xs = true
is_prefix (y ∷ ys) [] = false
is_prefix (y ∷ ys) (x ∷ xs) = (x == y) && is_prefix ys xs

is_prefix-true : (ys xs : List ℕ) → is_prefix ys xs ≡ true → (behind : List ℕ) × (xs ≡ ys ++ behind)
is_prefix-true [] xs h = (xs, refl)
is_prefix-true (y ∷ ys) [] h = absurd (ground arith)
is_prefix-true (y ∷ ys) (x ∷ xs) h =
    let rest : is_prefix ys xs ≡ true = ground arith in
    let e : x ≡ y = ground arith in
    let (behind, e') = is_prefix-true ys xs rest in (behind, rw (e, e'))

is_prefix-append : (ys behind : List ℕ) → is_prefix ys (ys ++ behind) ≡ true
is_prefix-append [] behind = refl
is_prefix-append (y ∷ ys) behind = ground (arith, is_prefix-append ys behind)

-- `r` points at the first occurrence of `ys` in the string `xs` at `base`, or it is a null pointer
-- and there is none.
pub data Occurs (ys : List ℕ) (base : Ptr) (xs : List ℕ) (r : Ptr) : Type 0 where
  occurs_at :
      (before behind : List ℕ)
      → xs ≡ before ++ (ys ++ behind)
      → ((before' behind' : List ℕ)
          → xs ≡ before' ++ (ys ++ behind')
          → length before ≤ length before')
      → r ≡ base + length before
      → Occurs ys base xs r
  occurs_nowhere :
      ((before behind : List ℕ) → xs ≢ before ++ (ys ++ behind)) → r ≡ nullptr → Occurs ys base xs r

Occurs-here :
    (ys : List ℕ) (base : Ptr) (xs : List ℕ) → is_prefix ys xs ≡ true → Occurs ys base xs base
Occurs-here ys base xs h =
    let (behind, e) = is_prefix-true ys xs h in
    occurs_at [] behind e (λ b b' e'. omega arith) (omega arith)

-- No occurrence begins where the needle is no prefix.
moves_on :
    (ys xs : List ℕ) (x : ℕ) (before behind : List ℕ)
    → is_prefix ys (x ∷ xs) ≡ false
    → x ∷ xs ≡ before ++ (ys ++ behind)
    → (before' : List ℕ) × (length before ≡ suc (length before')) × (xs ≡ before' ++ (ys ++ behind))
moves_on ys xs x [] behind miss e =
    let hit : is_prefix ys (x ∷ xs) ≡ true = ap (is_prefix ys) e ∙ is_prefix-append ys behind in
    absurd (ground arith)
moves_on ys xs x (z ∷ before') behind miss e = (before', refl, tail-eq_of_cons-eq e)

Occurs-cons :
    (ys : List ℕ) (base : Ptr) (xs : List ℕ) (x r : ℕ)
    → is_prefix ys (x ∷ xs) ≡ false
    → Occurs ys (base + 1) xs r
    → Occurs ys base (x ∷ xs) r
Occurs-cons ys base xs x r miss (occurs_at before behind e first at) =
    occurs_at (x ∷ before) behind (ap (◌∷◌ x) e)
      (λ b b' e'.
        let (c, len, e'') = moves_on ys xs x b b' miss e' in
        let shorter = first c b' e'' in omega arith)
      (omega arith)
Occurs-cons ys base xs x r miss (occurs_nowhere never at) =
    occurs_nowhere (λ b b' e'. let (c, len, e'') = moves_on ys xs x b b' miss e' in never c b' e'')
      at

nil≢append : (before : List ℕ) (y : ℕ) (zs : List ℕ) → [] ≢ before ++ (y ∷ zs)
nil≢append [] y zs e = nil≢cons e
nil≢append (z ∷ before) y zs e = nil≢cons e

match_end-is_prefix :
    (f : ℕ) (m : Memory) (h n : Ptr) (xs ys : List ℕ)
    → IsCStr m h xs
    → IsCStr m n ys
    → length xs < f
    → (e : ℕ) × (match_end f m h n ≡ done e) × ((e == 0) ≡ is_prefix ys xs)
unfolding match_end
match_end-is_prefix zero m h n xs ys hx hy fuel = absurd (omega arith)
match_end-is_prefix (suc f) m h n [] [] hx hy fuel =
    (0, rw (load-eq m h 0 hx, load-eq m n 0 hy), refl)
match_end-is_prefix (suc f) m h n [] (y ∷ ys) hx hy fuel =
    (y, rw (load-eq m h 0 hx, load-eq m n y hy.0), nonzero y hy.1)
match_end-is_prefix (suc f) m h n (x ∷ xs) [] hx hy fuel =
    (0, rw (load-eq m h x hx.0, load-eq m n 0 hy, nonzero x hx.1), refl)
match_end-is_prefix (suc f) m h n (x ∷ xs) (y ∷ ys) hx hy fuel =
    rw (load-eq m h x hx.0, load-eq m n y hy.0, nonzero x hx.1, nonzero y hy.1)
      (elim (Bool-cases (x == y)) [
        | inl e ↦
            let (b, run, spec) =
              match_end-is_prefix f m (h + 1) (n + 1) xs ys hx.3 hy.3 (omega arith) in
            (b, rw e run, rw e spec)
        | inr e ↦ (y, rw e, rw (nonzero y hy.1, e))
      ])

strstr_loop-Occurs :
    (f : ℕ) (m : Memory) (h n : Ptr) (xs : List ℕ) (y : ℕ) (ys : List ℕ)
    → IsCStr m h xs
    → IsCStr m n (y ∷ ys)
    → length xs < f
    → (r : Ptr) × (strstr_loop f m h n ≡ done r) × Occurs (y ∷ ys) h xs r
unfolding strstr_loop
strstr_loop-Occurs zero m h n xs y ys hx hy fuel = absurd (omega arith)
strstr_loop-Occurs (suc f) m h n [] y ys hx hy fuel =
    (nullptr, rw (load-eq m h 0 hx), occurs_nowhere (λ b b'. nil≢append b y (ys ++ b')) refl)
strstr_loop-Occurs (suc f) m h n (x ∷ xs) y ys hx hy fuel =
    let (r, run, spec) = strstr_loop-Occurs f m (h + 1) n xs y ys hx.3 hy (omega arith) in
    let (e, stops, test) = match_end-is_prefix (suc f) m h n (x ∷ xs) (y ∷ ys) hx hy fuel in
    elim (Bool-cases (is_prefix (y ∷ ys) (x ∷ xs))) [
      | inl hit ↦
          let first : (x == y) ≡ true = ground arith in
          (
            h,
            rw (load-eq m h x hx.0, nonzero x hx.1, load-eq m n y hy.0, first, stops, test, hit),
            Occurs-here (y ∷ ys) h (x ∷ xs) hit,
          )
      | inr miss ↦ (
        r,
        rw (load-eq m h x hx.0, nonzero x hx.1, load-eq m n y hy.0)
            (elim (Bool-cases (x == y)) [
              | inl eq ↦ rw (eq, stops, test, miss) run
              | inr ne ↦ rw ne run
            ]),
        Occurs-cons (y ∷ ys) h xs x r miss spec,
      )
    ]

-- `strstr` with fuel for more rounds than the string has characters returns a pointer to the first
-- occurrence of the needle in the string, or a null pointer when it does not occur; an empty
-- needle occurs at the beginning.
pub strstr-Occurs :
    (f : ℕ) (m : Memory) (haystack needle : Ptr) (xs ys : List ℕ)
    → IsCStr m haystack xs
    → IsCStr m needle ys
    → length xs < f
    → (r : Ptr) × (strstr f m haystack needle ≡ done r) × Occurs ys haystack xs r
unfolding strstr
strstr-Occurs f m haystack needle xs [] hx hy fuel =
    (haystack, rw (load-eq m needle 0 hy), Occurs-here [] haystack xs refl)
strstr-Occurs f m haystack needle xs (y ∷ ys) hx hy fuel =
    rw (load-eq m needle y hy.0, nonzero y hy.1)
      (strstr_loop-Occurs f m haystack needle xs y ys hx hy fuel)
