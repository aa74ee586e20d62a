-- ===== src/Util/Str/Length.antt =====
-- `strlen` and `strnlen`.
use yerp.Memory.{Memory, Ptr, done, fault, load-eq, load-none}
use yerp.Memory.Text.{Holds, IsCStr, nonzero}
use yerp.Prelude.{
  All, Bool-cases, List, [], ap, arith, false, inl, inr, length, min, none, suc, zero, ℕ, ◌+◌, ◌<◌,
  ◌==◌, ◌∙◌, ◌∷◌, ◌≡◌,
}
use yerp.Util.Str.{size_max, strlen, strnlen, walk, walk_max}

pub walk-end :
    (f : ℕ) (m : Memory) (p : Ptr) (xs : List ℕ)
    → IsCStr m p xs
    → length xs < f
    → walk f m p ≡ done (p + length xs)
unfolding walk
walk-end zero m p xs h fuel = absurd (omega arith)
walk-end (suc f) m p [] h fuel = rw (load-eq m p 0 h) (ap done (omega arith))
walk-end (suc f) m p (x ∷ xs) h fuel =
    rw (load-eq m p x h.0, nonzero x h.1)
      (walk-end f m (p + 1) xs h.3 (omega arith) ∙ ap done (omega arith))

-- On a string that is shorter than the fuel `strlen` returns the number of bytes before the
-- terminator.
pub strlen-length :
    (f : ℕ) (m : Memory) (s : Ptr) (xs : List ℕ)
    → IsCStr m s xs
    → length xs < f
    → strlen f m s ≡ done (length xs)
unfolding strlen
strlen-length f m s xs h fuel = rw (walk-end f m s xs h fuel) (ap done (omega arith))

walk_max-end :
    (k : ℕ) (m : Memory) (p : Ptr) (xs : List ℕ)
    → IsCStr m p xs
    → walk_max k m p ≡ done (p + min k (length xs))
unfolding walk_max
walk_max-end zero m p [] h = rw (load-eq m p 0 h) (ap done (omega arith))
walk_max-end zero m p (x ∷ xs) h = rw (load-eq m p x h.0) (ap done (omega arith))
walk_max-end (suc k) m p [] h = rw (load-eq m p 0 h) (ap done (omega arith))
walk_max-end (suc k) m p (x ∷ xs) h =
    rw (load-eq m p x h.0, nonzero x h.1) (walk_max-end k m (p + 1) xs h.3 ∙ ap done (omega arith))

-- On a string that is shorter than the fuel and than `SIZE_MAX`, `strnlen` returns the lesser of
-- its length and the bound.
pub strnlen-min :
    (f : ℕ) (m : Memory) (s : Ptr) (maxlen : ℕ) (xs : List ℕ)
    → IsCStr m s xs
    → length xs < f
    → length xs < size_max
    → strnlen f m s maxlen ≡ done (min maxlen (length xs))
unfolding strnlen
strnlen-min f m s maxlen xs h fuel small = elim (Bool-cases (maxlen == size_max)) [
  | inl top ↦ rw (top, walk-end f m s xs h fuel) (ap done (ground arith))
  | inr below ↦ rw (below, walk_max-end maxlen m s xs h) (ap done (omega arith))
]

walk_max-fault :
    (m : Memory) (p : Ptr) (xs : List ℕ)
    → Holds m p xs
    → All (λ x. 0 < x) xs
    → m (p + length xs) ≡ none
    → walk_max (length xs) m p ≡ fault
unfolding walk_max
walk_max-fault m p [] h nz e = let e' : p + 0 ≡ p = omega arith in rw (load-none m p (rw e' at e))
walk_max-fault m p (x ∷ xs) h nz e =
    let e' : p + suc (length xs) ≡ p + 1 + length xs = omega arith in
    rw (load-eq m p x h.0, nonzero x nz.0) (walk_max-fault m (p + 1) xs h.1 nz.1 (rw e' at e))

-- `strnlen` reads one byte behind its bound: on an array of exactly `maxlen` nonzero bytes with
-- nothing mapped behind them it faults, for every bound below `SIZE_MAX` and every fuel.
pub strnlen-over_read :
    (f : ℕ) (m : Memory) (s : Ptr) (xs : List ℕ)
    → Holds m s xs
    → All (λ x. 0 < x) xs
    → length xs < size_max
    → m (s + length xs) ≡ none
    → strnlen f m s (length xs) ≡ fault
unfolding strnlen
strnlen-over_read f m s xs h nz small e =
    let below : (length xs == size_max) ≡ false = ground arith in
    rw (below, walk_max-fault m s xs h nz e)
