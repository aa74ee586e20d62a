-- ===== src/Util/Block/Find.antt =====
-- `memchr`.
use yerp.Memory.{Memory, Ptr, done, load-eq, nullptr}
use yerp.Memory.Search.{First, First-cons, First-here, First-nil}
use yerp.Memory.Text.{Holds}
use yerp.Prelude.{
  Bool-cases, List, [], arith, false, inl, inr, length, refl, suc, zero, ℕ, ◌+◌, ◌∷◌, ◌≡◌,
}
use yerp.Prelude.Int.{eq_ℤ, negsuc, pos, ℤ}
use yerp.Util.Block.{memchr}

-- `memchr` in a block of `n` bytes returns a pointer to the first byte that is equal to the
-- `int` `c` as it was passed, or a null pointer if there is none.
pub memchr-First :
    (n : ℕ) (m : Memory) (s : Ptr) (c : ℤ) (xs : List ℕ)
    → Holds m s xs
    → length xs ≡ n
    → (r : Ptr) × (memchr n m s c ≡ done r) × First (λ b. eq_ℤ (pos b) c) s nullptr xs r
unfolding memchr
memchr-First zero m s c [] h e = (nullptr, refl, First-nil)
memchr-First zero m s c (x ∷ xs) h e = absurd (omega arith)
memchr-First (suc n) m s c [] h e = absurd (omega arith)
memchr-First (suc n) m s c (x ∷ xs) h e =
    rw (load-eq m s x h.0) (elim (Bool-cases (eq_ℤ (pos x) c)) [
      | inl hit ↦ (s, rw hit, First-here x xs hit)
      | inr miss ↦
          let (r, run, spec) = memchr-First n m (s + 1) c xs h.1 (omega arith) in
          (r, rw miss run, First-cons x miss spec)
    ])

-- `memchr` never converts `c` to an `unsigned char`: for a negative `c` it returns a null
-- pointer whatever the block holds, the byte `(unsigned char)c` included.
pub memchr-negative :
    (n : ℕ) (m : Memory) (s : Ptr) (c : ℕ) (xs : List ℕ)
    → Holds m s xs
    → length xs ≡ n
    → memchr n m s (negsuc c) ≡ done nullptr
unfolding memchr
memchr-negative zero m s c xs h e = refl
memchr-negative (suc n) m s c [] h e = absurd (omega arith)
memchr-negative (suc n) m s c (x ∷ xs) h e =
    let never : eq_ℤ (pos x) (negsuc c) ≡ false = ground arith in
    rw (load-eq m s x h.0, never) (memchr-negative n m (s + 1) c xs h.1 (omega arith))
