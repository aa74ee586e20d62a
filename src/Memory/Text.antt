-- ===== src/Memory/Text.antt =====
-- Texts in memory: byte lists, and zero-terminated strings.
use yerp.Memory.{IsMapped, Memory, Ptr, is_mapped}
use yerp.Memory.Region.{moved, moved_inside}
use yerp.Prelude.{
  All, Bool-cases, List, [], arith, false, inl, inr, length, refl, some, suc, ℕ, ◌++◌, ◌+◌, ◌<◌,
  ◌==◌, ◌∙◌, ◌∷◌, ◌≡◌, ◌≤◌,
}

-- The bytes `xs` stand in `m` from `p` on.
abbrev pub Holds : Memory → Ptr → List ℕ → Type 0
Holds m p [] = Unit {0}
Holds m p (x ∷ xs) = (m p ≡ some x) × Holds m (p + 1) xs

-- The zero-terminated string `xs` stands in `m` at `p`; it holds no zero.
abbrev pub IsCStr : Memory → Ptr → List ℕ → Type 0
IsCStr m p [] = m p ≡ some 0
IsCStr m p (x ∷ xs) = (m p ≡ some x) × (0 < x) × (x < 256) × IsCStr m (p + 1) xs

pub nonzero : (x : ℕ) → 0 < x → (x == 0) ≡ false
nonzero x h = ground arith

-- A string without its first byte.
pub IsCStr-tail : (m : Memory) (p x : ℕ) (xs : List ℕ) → IsCStr m p (x ∷ xs) → IsCStr m (p + 1) xs
IsCStr-tail m p x xs h = h.3

-- The bytes of a string, its terminator included.
abbrev pub terminated : List ℕ → List ℕ
terminated xs = xs ++ 0 ∷ []

-- A string stays where only bytes outside it change.
pub IsCStr-frame :
    (m m' : Memory) (p : Ptr) (xs : List ℕ)
    → IsCStr m p xs
    → ((a : Ptr) → p ≤ a → a < p + suc (length xs) → m' a ≡ m a)
    → IsCStr m' p xs
IsCStr-frame m m' p [] h keep = keep p (omega arith) (omega arith) ∙ h
IsCStr-frame m m' p (x ∷ xs) h keep = (
  keep p (omega arith) (omega arith) ∙ h.0,
  h.1,
  h.2,
  IsCStr-frame m m' (p + 1) xs h.3 (λ a lo hi. keep a (omega arith) (omega arith)),
)

-- A string that changes from its end on.
pub IsCStr-append :
    (m m' : Memory) (p : Ptr) (ys xs : List ℕ)
    → IsCStr m p ys
    → IsCStr m' (p + length ys) xs
    → ((a : Ptr) → p ≤ a → a < p + length ys → m' a ≡ m a)
    → IsCStr m' p (ys ++ xs)
IsCStr-append m m' p [] xs h hx keep = let e : p + 0 ≡ p = omega arith in rw e at hx
IsCStr-append m m' p (y ∷ ys) xs h hx keep =
    let e : p + suc (length ys) ≡ p + 1 + length ys = omega arith in
    (
      keep p (omega arith) (omega arith) ∙ h.0,
      h.1,
      h.2,
      IsCStr-append m m' (p + 1) ys xs h.3 (rw e at hx)
          (λ a lo hi. keep a (omega arith) (omega arith)),
    )

-- Every byte of a string and its terminator are mapped.
pub IsCStr-IsMapped :
    (m : Memory) (p : Ptr) (xs : List ℕ) → IsCStr m p xs → IsMapped m p (suc (length xs))
IsCStr-IsMapped m p [] h a lo hi = let e : a ≡ p = omega arith in rw (e, is_mapped, h)
IsCStr-IsMapped m p (x ∷ xs) h a lo hi = elim (Bool-cases (a == p)) [
  | inl e ↦ let e' : a ≡ p = ground arith in rw (e', is_mapped, h.0)
  | inr e ↦ IsCStr-IsMapped m (p + 1) xs h.3 a (ground arith) (omega arith)
]

-- A copy of a string is that string.
pub moved-IsCStr :
    (m : Memory) (d s n k : ℕ) (xs : List ℕ)
    → IsCStr m (s + k) xs
    → k + length xs < n
    → IsCStr (moved m d s n) (d + k) xs
moved-IsCStr m d s n k [] h fits = moved_inside m d s n k (omega arith) ∙ h
moved-IsCStr m d s n k (x ∷ xs) h fits =
    let es : s + k + 1 ≡ s + (k + 1) = omega arith in
    let ed : d + k + 1 ≡ d + (k + 1) = omega arith in
    (
      moved_inside m d s n k (omega arith) ∙ h.0,
      h.1,
      h.2,
      rw ed (moved-IsCStr m d s n (k + 1) xs (rw es at h.3) (omega arith)),
    )

pub IsCStr-end : (m : Memory) (p : Ptr) (xs : List ℕ) → IsCStr m p xs → m (p + length xs) ≡ some 0
IsCStr-end m p [] h = let e : p + 0 ≡ p = omega arith in rw e h
IsCStr-end m p (x ∷ xs) h =
    let e : p + suc (length xs) ≡ p + 1 + length xs = omega arith in
    rw e (IsCStr-end m (p + 1) xs h.3)

pub Holds-frame :
    (m m' : Memory) (p : Ptr) (xs : List ℕ)
    → Holds m p xs
    → ((a : Ptr) → p ≤ a → a < p + length xs → m' a ≡ m a)
    → Holds m' p xs
Holds-frame m m' p [] h keep = tt
Holds-frame m m' p (x ∷ xs) h keep = (
  keep p (omega arith) (omega arith) ∙ h.0,
  Holds-frame m m' (p + 1) xs h.1 (λ a lo hi. keep a (omega arith) (omega arith)),
)

pub Holds-IsMapped :
    (m : Memory) (p : Ptr) (n : ℕ) (xs : List ℕ) → Holds m p xs → length xs ≡ n → IsMapped m p n
Holds-IsMapped m p n [] h e a lo hi = absurd (omega arith)
Holds-IsMapped m p n (x ∷ xs) h e a lo hi = elim (Bool-cases (a == p)) [
  | inl q ↦ let q' : a ≡ p = ground arith in rw (q', is_mapped, h.0)
  | inr q ↦ Holds-IsMapped m (p + 1) (length xs) xs h.1 refl a (ground arith) (omega arith)
]

pub moved-Holds :
    (m : Memory) (d s n k : ℕ) (xs : List ℕ)
    → Holds m (s + k) xs
    → k + length xs ≤ n
    → Holds (moved m d s n) (d + k) xs
moved-Holds m d s n k [] h fits = tt
moved-Holds m d s n k (x ∷ xs) h fits =
    let es : s + k + 1 ≡ s + (k + 1) = omega arith in
    let ed : d + k + 1 ≡ d + (k + 1) = omega arith in
    (
      moved_inside m d s n k (omega arith) ∙ h.0,
      rw ed (moved-Holds m d s n (k + 1) xs (rw es at h.1) (omega arith)),
    )

pub nonzero_bytes : (xs : List ℕ) → All (λ x. (0 < x) × (x < 256)) xs → All (λ x. 0 < x) xs
nonzero_bytes [] h = tt
nonzero_bytes (x ∷ xs) h = (h.0.0, nonzero_bytes xs h.1)

-- Nonzero bytes with a zero behind them are a string.
pub IsCStr-of_Holds :
    (m : Memory) (p : Ptr) (xs : List ℕ)
    → Holds m p xs
    → All (λ x. (0 < x) × (x < 256)) xs
    → m (p + length xs) ≡ some 0
    → IsCStr m p xs
IsCStr-of_Holds m p [] h chars end = let e : p + 0 ≡ p = omega arith in rw e at end
IsCStr-of_Holds m p (x ∷ xs) h chars end =
    let e : p + suc (length xs) ≡ p + 1 + length xs = omega arith in
    (h.0, chars.0.0, chars.0.1, IsCStr-of_Holds m (p + 1) xs h.1 chars.1 (rw e at end))

-- The string that stands behind the first part of a string.
pub IsCStr-suffix :
    (m : Memory) (p : Ptr) (xs ys : List ℕ) → IsCStr m p (xs ++ ys) → IsCStr m (p + length xs) ys
IsCStr-suffix m p [] ys h = let e : p + 0 ≡ p = omega arith in rw e h
IsCStr-suffix m p (x ∷ xs) ys h =
    let e : p + suc (length xs) ≡ p + 1 + length xs = omega arith in
    rw e (IsCStr-suffix m (p + 1) xs ys h.3)
