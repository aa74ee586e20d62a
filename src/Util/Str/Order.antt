-- ===== src/Util/Str/Order.antt =====
-- `strcmp` and `strncmp` against the order of byte lists.
use yerp.Memory.{Memory, Ptr, done, load-eq}
use yerp.Memory.Order.{Compared, Compared-cons, Compared-head, same}
use yerp.Memory.Text.{IsCStr, nonzero, terminated}
use yerp.Prelude.{
  Bool-cases, List, [], ap, arith, inl, inr, length, refl, suc, take, zero, ℕ, ◌+◌, ◌<◌, ◌==◌, ◌∷◌,
  ◌≡◌,
}
use yerp.Prelude.Int.{pos, sub_ℕ, ℤ}
use yerp.Util.Str.{strcmp, strncmp, strncmp_loop}

-- `strcmp` of two strings of which the first is shorter than the fuel returns 0 when they are
-- equal, and otherwise the difference of the first two bytes at which they part, terminators
-- included.
pub strcmp-Compared :
    (f : ℕ) (m : Memory) (s1 s2 : Ptr) (xs ys : List ℕ)
    → IsCStr m s1 xs
    → IsCStr m s2 ys
    → length xs < f
    → (r : ℤ) × (strcmp f m s1 s2 ≡ done r) × Compared (terminated xs) (terminated ys) r
unfolding strcmp
strcmp-Compared zero m s1 s2 xs ys hx hy fuel = absurd (omega arith)
strcmp-Compared (suc f) m s1 s2 [] [] hx hy fuel =
    (pos 0, rw (load-eq m s1 0 hx, load-eq m s2 0 hy), same refl refl)
strcmp-Compared (suc f) m s1 s2 [] (y ∷ ys) hx hy fuel = (
  sub_ℕ 0 y,
  rw (load-eq m s1 0 hx, load-eq m s2 y hy.0),
  Compared-head 0 y [] (terminated ys) (ground arith),
)
strcmp-Compared (suc f) m s1 s2 (x ∷ xs) [] hx hy fuel = (
  sub_ℕ x 0,
  rw (load-eq m s1 x hx.0, load-eq m s2 0 hy) (ground arith),
  Compared-head x 0 (terminated xs) [] (ground arith),
)
strcmp-Compared (suc f) m s1 s2 (x ∷ xs) (y ∷ ys) hx hy fuel =
    rw (load-eq m s1 x hx.0, load-eq m s2 y hy.0, nonzero x hx.1)
      (elim (Bool-cases (x == y)) [
        | inl e ↦
            let (r, run, spec) =
              strcmp-Compared f m (s1 + 1) (s2 + 1) xs ys hx.3 hy.3 (omega arith) in
            let x-y : x ≡ y = ground arith in (r, rw e run, rw (← x-y) (Compared-cons x spec))
        | inr ne ↦
            (sub_ℕ x y, rw ne, Compared-head x y (terminated xs) (terminated ys) (ground arith))
      ])

strncmp_loop-Compared :
    (n : ℕ) (m : Memory) (s1 s2 : Ptr) (xs ys : List ℕ)
    → IsCStr m s1 xs
    → IsCStr m s2 ys
    → 0 < n
    → (r : ℤ) × (strncmp_loop n m s1 s2 ≡ done r)
      × Compared (take n (terminated xs)) (take n (terminated ys)) r
unfolding strncmp_loop
strncmp_loop-Compared zero m s1 s2 xs ys hx hy some_left = absurd (omega arith)
strncmp_loop-Compared (suc n) m s1 s2 [] [] hx hy some_left =
    (pos 0, rw (load-eq m s1 0 hx, load-eq m s2 0 hy), same refl refl)
strncmp_loop-Compared (suc n) m s1 s2 [] (y ∷ ys) hx hy some_left =
    (sub_ℕ 0 y, rw (load-eq m s1 0 hx, load-eq m s2 y hy.0), Compared-head 0 y _ _ (ground arith))
strncmp_loop-Compared (suc n) m s1 s2 (x ∷ xs) [] hx hy some_left = (
  sub_ℕ x 0,
  rw (load-eq m s1 x hx.0, load-eq m s2 0 hy) (ground arith),
  Compared-head x 0 _ _ (ground arith),
)
strncmp_loop-Compared (suc zero) m s1 s2 (x ∷ xs) (y ∷ ys) hx hy some_left =
    rw (load-eq m s1 x hx.0, load-eq m s2 y hy.0)
      (elim (Bool-cases (x == y)) [
        | inl e ↦ (sub_ℕ x y, ground arith, same (ap (λ c. c ∷ []) (ground arith)) (ground arith))
        | inr ne ↦ (sub_ℕ x y, rw ne (ground arith), Compared-head x y _ _ (ground arith))
      ])
strncmp_loop-Compared (suc (suc n)) m s1 s2 (x ∷ xs) (y ∷ ys) hx hy some_left =
    rw (load-eq m s1 x hx.0, load-eq m s2 y hy.0, nonzero x hx.1)
      (elim (Bool-cases (x == y)) [
        | inl e ↦
            let (r, run, spec) =
              strncmp_loop-Compared (suc n) m (s1 + 1) (s2 + 1) xs ys hx.3 hy.3 (omega arith) in
            let x-y : x ≡ y = ground arith in
            (r, rw (e, nonzero (suc n) (omega arith)) run, rw (← x-y) (Compared-cons x spec))
        | inr ne ↦ (sub_ℕ x y, rw ne, Compared-head x y _ _ (ground arith))
      ])

-- `strncmp` of two strings with a bound `n` returns 0 when their first `n` bytes are equal,
-- terminators included, and otherwise the difference of the first two of these that part.
pub strncmp-Compared :
    (m : Memory) (s1 s2 : Ptr) (n : ℕ) (xs ys : List ℕ)
    → IsCStr m s1 xs
    → IsCStr m s2 ys
    → (r : ℤ) × (strncmp m s1 s2 n ≡ done r)
      × Compared (take n (terminated xs)) (take n (terminated ys)) r
unfolding strncmp
strncmp-Compared m s1 s2 zero xs ys hx hy = (pos 0, refl, same refl refl)
strncmp-Compared m s1 s2 (suc n) xs ys hx hy =
    rw (nonzero (suc n) (omega arith))
      (strncmp_loop-Compared (suc n) m s1 s2 xs ys hx hy (omega arith))
