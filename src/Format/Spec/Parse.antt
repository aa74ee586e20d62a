-- ===== src/Format/Spec/Parse.antt =====
-- `parse_spec` reads what a specification is made of.
use yerp.Format.Decimal.{IsDigit}
use yerp.Format.Spec.{accept, first_or_zero, parse_spec, parse_width}
use yerp.Memory.{done}
use yerp.Prelude.{
  All, Bool, List, [], arith, false, if◌then◌else◌, leb, ltb, refl, true, ℕ, ◌&&◌, ◌*◌, ◌++◌, ◌+◌,
  ◌-◌, ◌==◌, ◌∷◌, ◌≡◌, ◌≤◌,
}
use yerp.Util.Number.{int_max}
use yerp.Util.Number.Text.{decimal, decimal-grows}

-- The character `c` before `xs` when the flag is set.
abbrev pub flag : ℕ → Bool → List ℕ → List ℕ
flag c b xs = if b then c ∷ xs else xs

abbrev pub starts : ℕ → List ℕ → Bool
starts c [] = false
starts c (x ∷ xs) = x == c

-- What follows the width is nothing, or begins with a character that has no meaning before it.
abbrev pub IsType : List ℕ → Type 0
IsType [] = Unit {0}
IsType (t ∷ ts) =
    ((leb b'0' t && leb t b'9') ≡ false) × ((t == b':') ≡ false) × ((t == b'#') ≡ false)

accept-flag :
    (c : ℕ) (b : Bool) (xs : List ℕ) → starts c xs ≡ false → accept c (flag c b xs) ≡ (b, xs)
unfolding accept
accept-flag c true xs h = let hit : (c == c) ≡ true = ground arith in rw hit
accept-flag c false [] h = refl
accept-flag c false (x ∷ xs) h = rw h

starts-flag :
    (c d : ℕ) (b : Bool) (xs : List ℕ)
    → (d == c) ≡ false
    → starts c xs ≡ false
    → starts c (flag d b xs) ≡ false
starts-flag c d true xs ne h = ne
starts-flag c d false xs ne h = h

starts-width :
    (c : ℕ) (ds ts : List ℕ)
    → All (λ x. (x == c) ≡ false) ds
    → starts c ts ≡ false
    → starts c (ds ++ ts) ≡ false
starts-width c [] ts h k = k
starts-width c (x ∷ ds) ts h k = h.0

IsDigit-ne :
    (c : ℕ) (ds : List ℕ)
    → (leb b'0' c && leb c b'9') ≡ false
    → All IsDigit ds
    → All (λ x. (x == c) ≡ false) ds
IsDigit-ne c [] out h = tt
IsDigit-ne c (x ∷ ds) out h = (ground (arith, h.0), IsDigit-ne c ds out h.1)

parse_width-decimal :
    (ds ts : List ℕ) (acc : ℕ)
    → All IsDigit ds
    → IsType ts
    → decimal acc ds ≤ int_max
    → parse_width acc (ds ++ ts) ≡ done (decimal acc ds, ts)
unfolding parse_width
parse_width-decimal [] [] acc digits kind fits = refl
parse_width-decimal [] (t ∷ ts) acc digits kind fits = rw (kind.0)
parse_width-decimal (x ∷ ds) ts acc digits kind fits =
    let next = acc * 10 + (x - 48) in
    let grows = decimal-grows ds next in
    let digit : (leb b'0' x && leb x b'9') ≡ true = ground (arith, digits.0) in
    let small : ltb int_max next ≡ false = ground arith in
    rw (digit, small) (parse_width-decimal ds ts next digits.1 kind fits)

starts-type :
    (ts : List ℕ)
    → IsType ts
    → (starts b':' ts ≡ false) × (starts b'#' ts ≡ false) × (starts b'0' ts ≡ false)
starts-type [] kind = (refl, refl, refl)
starts-type (t ∷ ts) kind = (kind.1, kind.2, ground arith)

starts_zero :
    (ds ts : List ℕ)
    → starts b'0' ds ≡ false
    → starts b'0' ts ≡ false
    → starts b'0' (ds ++ ts) ≡ false
starts_zero [] ts h k = k
starts_zero (x ∷ ds) ts h k = h

-- A specification that is made of a colon, `#`, `0`, a decimal width of at most `INT_MAX` with no
-- zero in front and a type character, each of which may be missing, is parsed without a fault into
-- these parts, with the width 0 and the type 0 where they are missing; the type character is no
-- digit, no colon and no `#`.
pub parse_spec-parts :
    (colon alternate zero_pad : Bool) (ds ts : List ℕ)
    → All IsDigit ds
    → starts b'0' ds ≡ false
    → decimal 0 ds ≤ int_max
    → IsType ts
    → parse_spec (flag b':' colon (flag b'#' alternate (flag b'0' zero_pad (ds ++ ts))))
      ≡ done (record {
        alternate = alternate;
        zero_pad = zero_pad;
        width = decimal 0 ds;
        spec_type = first_or_zero ts;
      })
unfolding parse_spec
parse_spec-parts colon alternate zero_pad ds ts digits no_zero fits kind =
    let (no_colon, no_hash, no_zero_type) = starts-type ts kind in
    let colon_width = starts-width b':' ds ts (IsDigit-ne b':' ds refl digits) no_colon in
    let hash_width = starts-width b'#' ds ts (IsDigit-ne b'#' ds refl digits) no_hash in
    let colon_zero = starts-flag b':' b'0' zero_pad (ds ++ ts) refl colon_width in
    let hash_zero = starts-flag b'#' b'0' zero_pad (ds ++ ts) refl hash_width in
    let colon_hash =
      starts-flag b':' b'#' alternate (flag b'0' zero_pad (ds ++ ts)) refl colon_zero in
    rw (
      accept-flag b':' colon (flag b'#' alternate (flag b'0' zero_pad (ds ++ ts))) colon_hash,
      accept-flag b'#' alternate (flag b'0' zero_pad (ds ++ ts)) hash_zero,
      accept-flag b'0' zero_pad (ds ++ ts) (starts_zero ds ts no_zero no_zero_type),
      parse_width-decimal ds ts 0 digits kind fits,
    )
