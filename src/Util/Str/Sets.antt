-- ===== src/Util/Str/Sets.antt =====
-- `strspn`, `strcspn` and `strpbrk`: a string is scanned against a set of bytes, itself a string.
use yerp.Memory.{Memory, Ptr, done, load-eq, nullptr}
use yerp.Memory.Search.{First, First-cons, First-here, First-nil, First-offset, absent}
use yerp.Memory.Text.{IsCStr, nonzero}
use yerp.Prelude.{
  Bool, Bool-cases, List, [], arith, false, inl, inr, length, not, refl, suc, true, zero, ℕ, ◌+◌,
  ◌-◌, ◌<◌, ◌==◌, ◌||◌, ◌∷◌, ◌≡◌,
}
use yerp.Util.Str.{cspan, holds_byte, span, stop_byte, strcspn, strpbrk, strspn}

-- Membership in a set of bytes.
unfoldable pub member : List ℕ → ℕ → Bool
member [] x = false
member (y ∷ ys) x = (y == x) || member ys x

holds_byte-member :
    (f : ℕ) (m : Memory) (r : Ptr) (x : ℕ) (ys : List ℕ)
    → IsCStr m r ys
    → length ys < f
    → holds_byte f m r x ≡ done (member ys x)
unfolding holds_byte member
holds_byte-member zero m r x ys h fuel = absurd (omega arith)
holds_byte-member (suc f) m r x [] h fuel = rw (load-eq m r 0 h)
holds_byte-member (suc f) m r x (y ∷ ys) h fuel =
    rw (load-eq m r y h.0, nonzero y h.1)
      (elim (Bool-cases (y == x)) [
        | inl e ↦ let e' : (x == y) ≡ true = ground arith in rw (e, e')
        | inr e ↦
            let e' : (x == y) ≡ false = ground arith in
            rw (e, e') (holds_byte-member f m (r + 1) x ys h.3 (omega arith))
      ])

-- The walk of `strspn` stops at the terminator exactly when the byte is not in the set.
stop_byte-member :
    (f : ℕ) (m : Memory) (a : Ptr) (x : ℕ) (ys : List ℕ)
    → IsCStr m a ys
    → length ys < f
    → 0 < x
    → (b : ℕ) × (stop_byte f m a x ≡ done b) × ((b == 0) ≡ not (member ys x))
unfolding stop_byte member
stop_byte-member zero m a x ys h fuel nz = absurd (omega arith)
stop_byte-member (suc f) m a x [] h fuel nz = (0, rw (load-eq m a 0 h), refl)
stop_byte-member (suc f) m a x (y ∷ ys) h fuel nz =
    rw (load-eq m a y h.0, nonzero y h.1)
      (elim (Bool-cases (y == x)) [
        | inl e ↦ (y, rw e, rw (nonzero y h.1, e))
        | inr e ↦
            let (b, run, spec) = stop_byte-member f m (a + 1) x ys h.3 (omega arith) nz in
            (b, rw e run, rw e spec)
      ])

module _ (m : Memory) (set : Ptr) (ys : List ℕ) (hs : IsCStr m set ys) where
  span-First :
      (f : ℕ) (p : Ptr) (xs : List ℕ)
      → IsCStr m p xs
      → length xs + length ys < f
      → (r : Ptr) × (span f m p set ≡ done r)
        × First (λ x. not (member ys x)) p (p + length xs) xs r
  unfolding span
  span-First zero p xs h fuel = absurd (omega arith)
  span-First (suc f) p [] h fuel = (p, rw (load-eq m p 0 h), absent tt (omega arith))
  span-First (suc f) p (x ∷ xs) h fuel =
      let (b, run, spec) = stop_byte-member (suc f) m set x ys hs (omega arith) h.1 in
      rw (load-eq m p x h.0, nonzero x h.1, run, spec)
        (elim (Bool-cases (not (member ys x))) [
          | inl hit ↦ (p, rw hit, First-here x xs hit)
          | inr miss ↦
              let (r, runs, first) = span-First f (p + 1) xs h.3 (omega arith) in
              let at : p + 1 + length xs ≡ p + suc (length xs) = omega arith in
              (r, rw miss runs, First-cons x miss (rw (← at) first))
        ])

  cspan-First :
      (f : ℕ) (p : Ptr) (xs : List ℕ)
      → IsCStr m p xs
      → length xs + length ys < f
      → (r : Ptr) × (cspan f m p set ≡ done r) × First (member ys) p (p + length xs) xs r
  unfolding cspan
  cspan-First zero p xs h fuel = absurd (omega arith)
  cspan-First (suc f) p [] h fuel = (p, rw (load-eq m p 0 h), absent tt (omega arith))
  cspan-First (suc f) p (x ∷ xs) h fuel =
      rw (load-eq m p x h.0, nonzero x h.1, holds_byte-member (suc f) m set x ys hs (omega arith))
        (elim (Bool-cases (member ys x)) [
          | inl hit ↦ (p, rw hit, First-here x xs hit)
          | inr miss ↦
              let (r, runs, first) = cspan-First f (p + 1) xs h.3 (omega arith) in
              let at : p + 1 + length xs ≡ p + suc (length xs) = omega arith in
              (r, rw miss runs, First-cons x miss (rw (← at) first))
        ])

  -- `strpbrk` returns a pointer to the first byte of the string that is in the set, or a null
  -- pointer if there is none, when the fuel exceeds the lengths of the string and the set.
  pub strpbrk-First :
      (f : ℕ) (s : Ptr) (xs : List ℕ)
      → IsCStr m s xs
      → length xs + length ys < f
      → (r : Ptr) × (strpbrk f m s set ≡ done r) × First (member ys) s nullptr xs r
  unfolding strpbrk
  strpbrk-First zero s xs h fuel = absurd (omega arith)
  strpbrk-First (suc f) s [] h fuel = (nullptr, rw (load-eq m s 0 h), First-nil)
  strpbrk-First (suc f) s (x ∷ xs) h fuel =
      rw (load-eq m s x h.0, nonzero x h.1, holds_byte-member (suc f) m set x ys hs (omega arith))
        (elim (Bool-cases (member ys x)) [
          | inl hit ↦ (s, rw hit, First-here x xs hit)
          | inr miss ↦
              let (r, runs, first) = strpbrk-First f (s + 1) xs h.3 (omega arith) in
              (r, rw miss runs, First-cons x miss first)
        ])

  -- `strspn` returns the length of the longest prefix of the string that lies within the set,
  -- and `strcspn` the length of the longest prefix that avoids it, when the fuel exceeds the
  -- lengths of the string and the set.
  pub strspn-strcspn :
      (f : ℕ) (s : Ptr) (xs : List ℕ)
      → IsCStr m s xs
      → length xs + length ys < f
      → (i j : ℕ) × (strspn f m s set ≡ done i)
        × (strcspn f m s set ≡ done j)
        × First (λ x. not (member ys x)) 0 (length xs) xs i
        × First (member ys) 0 (length xs) xs j
  unfolding strspn strcspn
  strspn-strcspn f s xs h fuel =
      let (r, run, first) = span-First f s xs h fuel in
      let (r', run', first') = cspan-First f s xs h fuel in
      (r - s, r' - s, rw run, rw run', First-offset s first, First-offset s first')
