-- ===== src/Util/Block/Compare.antt =====
-- `memcmp` against the order of byte lists.
use yerp.Memory.{Memory, Ptr, done, load-eq}
use yerp.Memory.Order.{Compared, Compared-cons, Compared-head, Compared-nil}
use yerp.Memory.Text.{Holds}
use yerp.Prelude.{
  Bool-cases, List, [], arith, inl, inr, length, refl, suc, zero, ℕ, ◌+◌, ◌==◌, ◌∷◌, ◌≡◌,
}
use yerp.Prelude.Int.{pos, sub_ℕ, ℤ}
use yerp.Util.Block.{memcmp}

-- `memcmp` of two blocks of `n` bytes returns 0 when the blocks are equal, and otherwise the
-- difference of the first two bytes at which they part.
pub memcmp-Compared :
    (n : ℕ) (m : Memory) (s1 s2 : Ptr) (xs ys : List ℕ)
    → Holds m s1 xs
    → Holds m s2 ys
    → length xs ≡ n
    → length ys ≡ n
    → (r : ℤ) × (memcmp n m s1 s2 ≡ done r) × Compared xs ys r
unfolding memcmp
memcmp-Compared zero m s1 s2 [] [] hx hy ex ey = (pos 0, refl, Compared-nil)
memcmp-Compared zero m s1 s2 [] (y ∷ ys) hx hy ex ey = absurd (omega arith)
memcmp-Compared zero m s1 s2 (x ∷ xs) ys hx hy ex ey = absurd (omega arith)
memcmp-Compared (suc n) m s1 s2 [] ys hx hy ex ey = absurd (omega arith)
memcmp-Compared (suc n) m s1 s2 (x ∷ xs) [] hx hy ex ey = absurd (omega arith)
memcmp-Compared (suc n) m s1 s2 (x ∷ xs) (y ∷ ys) hx hy ex ey =
    rw (load-eq m s1 x hx.0, load-eq m s2 y hy.0)
      (elim (Bool-cases (x == y)) [
        | inl e ↦
            let (r, run, spec) =
              memcmp-Compared n m (s1 + 1) (s2 + 1) xs ys hx.1 hy.1 (omega arith) (omega arith) in
            let x-y : x ≡ y = ground arith in (r, rw e run, rw (← x-y) (Compared-cons x spec))
        | inr ne ↦ (sub_ℕ x y, rw ne, Compared-head x y xs ys (ground arith))
      ])
