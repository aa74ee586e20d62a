-- ===== src/Util/Str/Find.antt =====
-- `strchr` and `strrchr`.
use yerp.Memory.{Memory, Ptr, done, load-eq, nullptr}
use yerp.Memory.Search.{
  First, First-cons, First-here, First-nil, Last, Last-hit, Last-miss, absent_last,
}
use yerp.Memory.Text.{IsCStr, nonzero, terminated}
use yerp.Prelude.{
  Bool, Bool-cases, List, [], arith, inl, inr, length, refl, suc, zero, ℕ, ◌+◌, ◌<◌, ◌∷◌, ◌≡◌,
}
use yerp.Prelude.Int.{eq_ℤ, pos, to_char, ℤ}
use yerp.Util.Str.{strchr, strrchr, strrchr_loop}

abbrev pub is_char : ℤ → ℕ → Bool
is_char c b = eq_ℤ (to_char b) c

-- The byte 0 is the `char` 0 and no other byte is.
zero_char : (c : ℤ) → eq_ℤ c (pos 0) ≡ is_char c 0
zero_char c = ground arith

-- `strchr` in a string that is shorter than the fuel returns a pointer to the first byte that is
-- `c` when read as a signed `char`, the terminator included, or a null pointer if there is none.
pub strchr-First :
    (f : ℕ) (m : Memory) (s : Ptr) (c : ℤ) (xs : List ℕ)
    → IsCStr m s xs
    → length xs < f
    → (r : Ptr) × (strchr f m s c ≡ done r) × First (is_char c) s nullptr (terminated xs) r
unfolding strchr
strchr-First zero m s c xs h fuel = absurd (omega arith)
strchr-First (suc f) m s c [] h fuel =
    rw (load-eq m s 0 h, zero_char c)
      (elim (Bool-cases (is_char c 0)) [
        | inl hit ↦ (s, rw hit, First-here 0 [] hit)
        | inr miss ↦ (nullptr, rw miss, First-cons 0 miss First-nil)
      ])
strchr-First (suc f) m s c (x ∷ xs) h fuel =
    rw (load-eq m s x h.0, nonzero x h.1)
      (elim (Bool-cases (is_char c x)) [
        | inl hit ↦ (s, rw hit, First-here x (terminated xs) hit)
        | inr miss ↦
            let (r, run, spec) = strchr-First f m (s + 1) c xs h.3 (omega arith) in
            (r, rw miss run, First-cons x miss spec)
      ])

strrchr_loop-Last :
    (f : ℕ) (m : Memory) (s : Ptr) (c : ℤ) (last : Ptr) (xs : List ℕ)
    → IsCStr m s xs
    → length xs < f
    → (r : Ptr) × (strrchr_loop f m s c last ≡ done r) × Last (is_char c) s last (terminated xs) r
unfolding strrchr_loop
strrchr_loop-Last zero m s c last xs h fuel = absurd (omega arith)
strrchr_loop-Last (suc f) m s c last [] h fuel =
    rw (load-eq m s 0 h) (elim (Bool-cases (is_char c 0)) [
      | inl hit ↦ (s, rw hit, Last-hit 0 hit (absent_last tt refl))
      | inr miss ↦ (last, rw miss, Last-miss 0 miss (absent_last tt refl))
    ])
strrchr_loop-Last (suc f) m s c last (x ∷ xs) h fuel =
    rw (load-eq m s x h.0, nonzero x h.1)
      (elim (Bool-cases (is_char c x)) [
        | inl hit ↦
            let (r, run, spec) = strrchr_loop-Last f m (s + 1) c s xs h.3 (omega arith) in
            (r, rw hit run, Last-hit x hit spec)
        | inr miss ↦
            let (r, run, spec) = strrchr_loop-Last f m (s + 1) c last xs h.3 (omega arith) in
            (r, rw miss run, Last-miss x miss spec)
      ])

-- `strrchr` in a string that is shorter than the fuel returns a pointer to the last byte that is
-- `c` when read as a signed `char`, the terminator included, or a null pointer if there is none.
pub strrchr-Last :
    (f : ℕ) (m : Memory) (s : Ptr) (c : ℤ) (xs : List ℕ)
    → IsCStr m s xs
    → length xs < f
    → (r : Ptr) × (strrchr f m s c ≡ done r) × Last (is_char c) s nullptr (terminated xs) r
unfolding strrchr
strrchr-Last f m s c xs h fuel = strrchr_loop-Last f m s c nullptr xs h fuel
