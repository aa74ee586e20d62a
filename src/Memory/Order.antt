-- ===== src/Memory/Order.antt =====
-- The order of two byte lists, as `memcmp`, `strcmp` and `strncmp` report it.
use yerp.Prelude.{List, [], ap, arith, refl, sym, ℕ, ◌++◌, ◌∙◌, ◌∷◌, ◌≡◌, ◌≢◌}
use yerp.Prelude.Int.{pos, sub_ℕ, ℤ}

-- `r` is 0 and the lists are one, or it is the difference of the first bytes at which they part.
pub data Compared (xs ys : List ℕ) (r : ℤ) : Type 0 where
  same : xs ≡ ys → r ≡ pos 0 → Compared xs ys r
  differ :
      (before : List ℕ) (a b : ℕ) (xs' ys' : List ℕ)
      → xs ≡ before ++ a ∷ xs'
      → ys ≡ before ++ b ∷ ys'
      → a ≢ b
      → r ≡ sub_ℕ a b
      → Compared xs ys r

pub Compared-cons :
    {xs ys : List ℕ} {r : ℤ} (x : ℕ) → Compared xs ys r → Compared (x ∷ xs) (x ∷ ys) r
Compared-cons x (same e z) = same (ap (◌∷◌ x) e) z
Compared-cons x (differ before a b xs' ys' e e' ne d) =
    differ (x ∷ before) a b xs' ys' (ap (◌∷◌ x) e) (ap (◌∷◌ x) e') ne d

pub Compared-head : (a b : ℕ) (xs ys : List ℕ) → a ≢ b → Compared (a ∷ xs) (b ∷ ys) (sub_ℕ a b)
Compared-head a b xs ys ne = differ [] a b xs ys refl refl ne refl

pub Compared-nil : Compared [] [] (pos 0)
Compared-nil = same refl refl

sub-ne_zero : (a b : ℕ) → a ≢ b → sub_ℕ a b ≢ pos 0
sub-ne_zero a b ne = ground arith

-- The result 0 means that the lists are one.
pub eq_of_zero : {xs ys : List ℕ} {r : ℤ} → Compared xs ys r → r ≡ pos 0 → xs ≡ ys
eq_of_zero (same e z) h = e
eq_of_zero (differ before a b xs' ys' e e' ne d) h = absurd (sub-ne_zero a b ne (sym d ∙ h))
