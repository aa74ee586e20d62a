-- ===== src/Memory/Search.antt =====
-- The outcome of a search from the left and from the right through the bytes from `base` on.
use yerp.Memory.{Ptr}
use yerp.Prelude.{
  All, Bool, List, [], ap, arith, false, length, refl, true, ℕ, ◌++◌, ◌+◌, ◌-◌, ◌∷◌, ◌≡◌,
}

-- `r` points at the first element that passes `test`, or it is `missing` and none passes.
pub data First (test : ℕ → Bool) (base missing : Ptr) (xs : List ℕ) (r : Ptr) : Type 0 where
  found :
      (before : List ℕ) (b : ℕ) (behind : List ℕ)
      → xs ≡ before ++ b ∷ behind
      → All (λ x. test x ≡ false) before
      → test b ≡ true
      → r ≡ base + length before
      → First test base missing xs r
  absent : All (λ x. test x ≡ false) xs → r ≡ missing → First test base missing xs r

module _ {test : ℕ → Bool} {base missing : Ptr} where
  pub First-here : (x : ℕ) (xs : List ℕ) → test x ≡ true → First test base missing (x ∷ xs) base
  First-here x xs hit = found [] x xs refl tt hit (omega arith)

  pub First-nil : First test base missing [] missing
  First-nil = absent tt refl

  -- A byte that does not pass stands in front.
  pub First-cons :
      {xs : List ℕ} {r : Ptr} (x : ℕ)
      → test x ≡ false
      → First test (base + 1) missing xs r
      → First test base missing (x ∷ xs) r
  First-cons x miss (found before b behind e all hit at) =
      found (x ∷ before) b behind (ap (◌∷◌ x) e) (miss, all) hit (omega arith)
  First-cons x miss (absent all at) = absent (miss, all) at

-- `r` points at the last element that passes `test`, or it is `missing` and none passes.
pub data Last (test : ℕ → Bool) (base missing : Ptr) (xs : List ℕ) (r : Ptr) : Type 0 where
  found_last :
      (before : List ℕ) (b : ℕ) (behind : List ℕ)
      → xs ≡ before ++ b ∷ behind
      → All (λ x. test x ≡ false) behind
      → test b ≡ true
      → r ≡ base + length before
      → Last test base missing xs r
  absent_last : All (λ x. test x ≡ false) xs → r ≡ missing → Last test base missing xs r

module _ {test : ℕ → Bool} {base missing : Ptr} where
  pub Last-miss :
      {xs : List ℕ} {r : Ptr} (x : ℕ)
      → test x ≡ false
      → Last test (base + 1) missing xs r
      → Last test base missing (x ∷ xs) r
  Last-miss x miss (found_last before b behind e all hit at) =
      found_last (x ∷ before) b behind (ap (◌∷◌ x) e) all hit (omega arith)
  Last-miss x miss (absent_last all at) = absent_last (miss, all) at

  -- What passes is the answer when nothing behind it passes.
  pub Last-hit :
      {xs : List ℕ} {r : Ptr} (x : ℕ)
      → test x ≡ true
      → Last test (base + 1) base xs r
      → Last test base missing (x ∷ xs) r
  Last-hit x hit (found_last before b behind e all hit' at) =
      found_last (x ∷ before) b behind (ap (◌∷◌ x) e) all hit' (omega arith)
  Last-hit {xs} x hit (absent_last all at) = found_last [] x xs refl all hit (omega arith)

-- A search from an address, as a search from 0.
pub First-offset :
    {test : ℕ → Bool} {xs : List ℕ} {r : Ptr} (base : Ptr)
    → First test base (base + length xs) xs r
    → First test 0 (length xs) xs (r - base)
First-offset base (found before b behind e all hit at) =
    found before b behind e all hit (omega arith)
First-offset base (absent all at) = absent all (omega arith)
