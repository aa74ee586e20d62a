-- ===== src/Util/Number/Read.antt =====
-- What the conversions from text read of a decimal text.
use yerp.Memory.{Memory, Ptr, done, fault, load-eq}
use yerp.Memory.Text.{IsCStr}
use yerp.Prelude.{
  All, Bool, Bool-cases, List, [], arith, false, if◌then◌else◌, inl, inr, length, ltb, refl, some,
  suc, true, zero, ℕ, ◌*◌, ◌+◌, ◌-◌, ◌<◌, ◌==◌, ◌∷◌, ◌≡◌, ◌≤◌, ◌⊎◌,
}
use yerp.Prelude.Int.{pos, sub_ℕ, to_char}
use yerp.Util.Ctype.{isdigit, isspace}
use yerp.Util.Number.{read_digits, read_number}
use yerp.Util.Number.Text.{IsDigit, decimal, decimal-grows, sign_text}
use yerp.Util.Strtol.{skip_space}

digit-isdigit : (x : ℕ) → IsDigit x → (isdigit (to_char x) ≡ true)
unfolding isdigit
digit-isdigit x h = ground arith

read_digits-decimal :
    (f max : ℕ) (m : Memory) (p acc : ℕ) (xs : List ℕ)
    → IsCStr m p xs
    → All IsDigit xs
    → decimal acc xs ≤ max
    → length xs < f
    → read_digits f max m p acc ≡ done (decimal acc xs)
unfolding read_digits isdigit
read_digits-decimal zero max m p acc xs h digits fits fuel = absurd (omega arith)
read_digits-decimal (suc f) max m p acc [] h digits fits fuel = rw (load-eq m p 0 h)
read_digits-decimal (suc f) max m p acc (x ∷ xs) h digits fits fuel =
    let digit = digit-isdigit x digits.0 in
    let grows = decimal-grows xs (acc * 10 + (x - 48)) in
    let small : ltb max (acc * 10 + (x - 48)) ≡ false = ground arith in
    rw (load-eq m p x h.0, digit, small)
      (read_digits-decimal f max m (p + 1) (acc * 10 + (x - 48)) xs h.3 digits.1 fits (omega arith))

-- The first character of a text without a sign: a digit or the terminator.
start_facts :
    (x : ℕ)
    → (x ≡ 0) ⊎ IsDigit x
    → (isspace (to_char x) ≡ false) × ((x == b'-') ≡ false) × ((x == b'+') ≡ false)
unfolding isspace
start_facts x h = ground arith

unsigned_text :
    (m : Memory) (p : Ptr) (xs : List ℕ)
    → IsCStr m p xs
    → All IsDigit xs
    → (x : ℕ) × (m p ≡ some x) × ((x ≡ 0) ⊎ IsDigit x)
unsigned_text m p [] h digits = (0, h, inl refl)
unsigned_text m p (x ∷ xs) h digits = (x, h.0, inr digits.0)

-- A decimal text that stands for at most `max` is read as its number.
pub read_number-decimal :
    (f max : ℕ) (m : Memory) (p : Ptr) (negative : Bool) (xs : List ℕ)
    → IsCStr m p (sign_text negative xs)
    → All IsDigit xs
    → decimal 0 xs ≤ max
    → length xs < f
    → read_number max f m p ≡ done (if negative then sub_ℕ 0 (decimal 0 xs) else pos (decimal 0 xs))
unfolding read_number skip_space isspace
read_number-decimal zero max m p negative xs h digits fits fuel = absurd (omega arith)
read_number-decimal (suc f) max m p true xs h digits fits fuel = rw (
  load-eq m p b'-' h.0,
  load-eq m p b'-' h.0,
  read_digits-decimal (suc f) max m (p + 1) 0 xs h.3 digits fits fuel,
)
read_number-decimal (suc f) max m p false xs h digits fits fuel =
    let (x, e, first) = unsigned_text m p xs h digits in
    let (no_space, no_minus, no_plus) = start_facts x first in
    rw (
      load-eq m p x e,
      no_space,
      load-eq m p x e,
      no_minus,
      no_plus,
      read_digits-decimal (suc f) max m p 0 xs h digits fits fuel,
    )

read_digits-overflow :
    (f max : ℕ) (m : Memory) (p acc : ℕ) (xs : List ℕ)
    → IsCStr m p xs
    → All IsDigit xs
    → acc ≤ max
    → max < decimal acc xs
    → length xs < f
    → read_digits f max m p acc ≡ fault
unfolding read_digits isdigit
read_digits-overflow zero max m p acc xs h digits le over fuel = absurd (omega arith)
read_digits-overflow (suc f) max m p acc [] h digits le over fuel = absurd (omega arith)
read_digits-overflow (suc f) max m p acc (x ∷ xs) h digits le over fuel =
    let digit = digit-isdigit x digits.0 in
    let next = acc * 10 + (x - 48) in
    elim (Bool-cases (ltb max next)) [
      | inl e ↦ rw (load-eq m p x h.0, digit, e)
      | inr e ↦
          rw (load-eq m p x h.0, digit, e)
            (read_digits-overflow f max m (p + 1) next xs h.3 digits.1 (ground arith) over
              (omega arith))
    ]

-- A decimal text, with a minus sign or without, that stands for a number of more than `max` is a
-- signed overflow in `atoi`, `atol` and `atoll`, for the `max` of their type and fuel for more
-- rounds than the text has digits.
pub read_number-overflow :
    (f max : ℕ) (m : Memory) (p : Ptr) (negative : Bool) (xs : List ℕ)
    → IsCStr m p (sign_text negative xs)
    → All IsDigit xs
    → max < decimal 0 xs
    → length xs < f
    → read_number max f m p ≡ fault
unfolding read_number skip_space isspace
read_number-overflow zero max m p negative xs h digits over fuel = absurd (omega arith)
read_number-overflow (suc f) max m p true xs h digits over fuel = rw (
  load-eq m p b'-' h.0,
  load-eq m p b'-' h.0,
  read_digits-overflow (suc f) max m (p + 1) 0 xs h.3 digits (omega arith) over fuel,
)
read_number-overflow (suc f) max m p false xs h digits over fuel =
    let (x, e, first) = unsigned_text m p xs h digits in
    let (no_space, no_minus, no_plus) = start_facts x first in
    rw (
      load-eq m p x e,
      no_space,
      load-eq m p x e,
      no_minus,
      no_plus,
      read_digits-overflow (suc f) max m p 0 xs h digits (omega arith) over fuel,
    )
