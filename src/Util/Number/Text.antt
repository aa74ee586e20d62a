-- ===== src/Util/Number/Text.antt =====
-- The decimal texts that the conversions write and read.
use mathlib.Core.List.{reverse-cons}
use yerp.Memory.{Memory, Ptr}
use yerp.Memory.Text.{Holds}
use yerp.Prelude.{
  All, Bool, List, [], arith, if◌then◌else◌, length, length-append, refl, reverse, some, suc, ℕ,
  ◌*◌, ◌++◌, ◌+◌, ◌-◌, ◌<◌, ◌∙◌, ◌∷◌, ◌≡◌, ◌≤◌,
}

abbrev pub IsDigit : ℕ → Type 0
IsDigit c = (48 ≤ c) × (c ≤ 57)

-- The number that a text stands for, read from the left after the number `acc`.
abbrev pub decimal : ℕ → List ℕ → ℕ
decimal acc [] = acc
decimal acc (x ∷ xs) = decimal (acc * 10 + (x - 48)) xs

-- The number that a text stands for, the lowest digit first.
abbrev pub low_decimal : List ℕ → ℕ
low_decimal [] = 0
low_decimal (x ∷ xs) = (x - 48) + 10 * low_decimal xs

-- The decimal text of an integer: the digits `xs`, with a minus sign before a negative one.
abbrev pub sign_text : Bool → List ℕ → List ℕ
sign_text negative xs = if negative then b'-' ∷ xs else xs

decimal-append : (xs ys : List ℕ) (acc : ℕ) → decimal acc (xs ++ ys) ≡ decimal (decimal acc xs) ys
decimal-append [] ys acc = refl
decimal-append (x ∷ xs) ys acc = decimal-append xs ys (acc * 10 + (x - 48))

pub decimal-reverse : (xs : List ℕ) → decimal 0 (reverse xs) ≡ low_decimal xs
decimal-reverse [] = refl
decimal-reverse (x ∷ xs) =
    rw (reverse-cons x xs, decimal-append (reverse xs) (x ∷ []) 0, decimal-reverse xs) (omega arith)

pub decimal-grows : (xs : List ℕ) (acc : ℕ) → acc ≤ decimal acc xs
decimal-grows [] acc = omega arith
decimal-grows (x ∷ xs) acc = omega (arith, decimal-grows xs (acc * 10 + (x - 48)))

pub length-reverse : (xs : List ℕ) → length (reverse xs) ≡ length xs
length-reverse [] = refl
length-reverse (x ∷ xs) =
    rw (reverse-cons x xs, length-append (reverse xs) (x ∷ []), length-reverse xs) (omega arith)

pub All-append : (P : ℕ → Type 0) (xs ys : List ℕ) → All P xs → All P ys → All P (xs ++ ys)
All-append P [] ys h k = k
All-append P (x ∷ xs) ys h k = (h.0, All-append P xs ys h.1 k)

pub All-reverse : (P : ℕ → Type 0) (xs : List ℕ) → All P xs → All P (reverse xs)
All-reverse P [] h = tt
All-reverse P (x ∷ xs) h =
    rw (reverse-cons x xs) (All-append P (reverse xs) (x ∷ []) (All-reverse P xs h.1) (h.0, tt))

pub Holds-append :
    (m : Memory) (p : Ptr) (xs ys : List ℕ)
    → Holds m p xs
    → Holds m (p + length xs) ys
    → Holds m p (xs ++ ys)
Holds-append m p [] ys h k = let e : p + 0 ≡ p = omega arith in rw e at k
Holds-append m p (x ∷ xs) ys h k =
    let e : p + suc (length xs) ≡ p + 1 + length xs = omega arith in
    (h.0, Holds-append m (p + 1) xs ys h.1 (rw e at k))

-- A text whose bytes stand in the other order.
pub Holds-reverse :
    (m m' : Memory) (p q : Ptr) (xs : List ℕ)
    → Holds m p xs
    → ((k : ℕ) → k < length xs → m' (q + k) ≡ m (p + (length xs - 1 - k)))
    → Holds m' q (reverse xs)
Holds-reverse m m' p q [] h e = tt
Holds-reverse m m' p q (x ∷ xs) h e =
    let len = length-reverse xs in
    let first : p + (suc (length xs) - 1 - length xs) ≡ p = omega arith in
    let last : m' (q + length xs) ≡ some x = e (length xs) (omega arith) ∙ rw first h.0 in
    rw (reverse-cons x xs) (
      Holds-append m' q (reverse xs) (x ∷ [])
        (Holds-reverse m m' (p + 1) q xs h.1 (λ k le.
          let at : p + (suc (length xs) - 1 - k) ≡ p + 1 + (length xs - 1 - k) = omega arith in
          rw at at (e k (omega arith))))
        (rw len (last, tt)))
