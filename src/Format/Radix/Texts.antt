-- ===== src/Format/Radix/Texts.antt =====
-- `make_hex_string` and `make_bin_string` write the digits of their number.
use native.Mathlib.Nat.{pow-suc, pow-zero}
use yerp.Format.{Buffer, set_at, swap_loop}
use yerp.Format.Radix.{bin_digit, hex_digit, make_bin_string, make_hex_string, radix_loop}
use yerp.Format.Reverse.{swap_loop-reverse}
use yerp.Prelude.{
  Bool, Bool-cases, arith, false, if◌then◌else◌, inl, inr, ltb, refl, suc, sym, true, zero, ℕ, ◌%◌,
  ◌*◌, ◌+◌, ◌-◌, ◌/◌, ◌<◌, ◌==◌, ◌^◌, ◌∙◌, ◌≡◌, ◌≤◌,
}

-- What the loop uses of a base and its digits.
pub record Radix (base : ℕ) (digit decode : ℕ → ℕ) : Type 0 where
  pub decoded : (d : ℕ) → d < base → decode (digit d) ≡ d
  pub below_base : (v : ℕ) → v % base < base
  pub split : (v : ℕ) → v ≡ v % base + base * (v / base)
  pub shrinks : (v r : ℕ) → v < base ^ suc r → v / base < base ^ r

-- The value of a hexadecimal or binary digit.
abbrev pub hex_value : ℕ → ℕ
hex_value c = if ltb c 58 then c - 48 else (if ltb c 97 then c - 55 else c - 87)

pub hex_digit-Radix : (lowercase : Bool) → Radix 16 (hex_digit lowercase) hex_value
hex_digit-Radix lowercase = record {
  decoded = λ d h. ground arith;
  below_base = λ v. omega arith;
  split = λ v. omega arith;
  shrinks = λ v r h. let p = pow-suc 16 r in omega arith;
}

pub bin_digit-Radix : Radix 2 bin_digit hex_value
bin_digit-Radix = record {
  decoded = λ d h. ground arith;
  below_base = λ v. omega arith;
  split = λ v. omega arith;
  shrinks = λ v r h. let p = pow-suc 2 r in omega arith;
}

-- The number that the first `n` characters of a text stand for, read from the left.
abbrev pub radix_reads : ℕ → (ℕ → ℕ) → Buffer → ℕ → ℕ
radix_reads base decode text zero = 0
radix_reads base decode text (suc n) = base * radix_reads base decode text n + decode (text n)

-- The number that `k` characters from `lo` on stand for, the lowest digit first.
abbrev radix_low : ℕ → (ℕ → ℕ) → Buffer → ℕ → ℕ → ℕ
radix_low base decode buf zero lo = 0
radix_low base decode buf (suc k) lo = decode (buf lo) + base * radix_low base decode buf k (lo + 1)

-- `n` characters, at most `cap`, that read as the number `v` from the left, all of them digits,
-- with no needless zero in front.
abbrev pub IsRadix : ℕ → (ℕ → ℕ) → (ℕ → ℕ) → ℕ → ℕ → ℕ × Buffer → Type 0
IsRadix base digit decode cap v (n, text) =
    (0 < n)
    × (n ≤ cap)
    × (radix_reads base decode text n ≡ v)
    × ((i : ℕ) → i < n → (d : ℕ) × (d < base) × (text i ≡ digit d))
    × (0 < v → 0 < decode (text 0))

module _ (base : ℕ) (digit decode : ℕ → ℕ) (radix : Radix base digit decode) where
  reads-radix_low :
      (text buf : Buffer) (n k : ℕ)
      → k ≤ n
      → ((i : ℕ) → i < n → text i ≡ buf (n - 1 - i))
      → radix_reads base decode text k ≡ radix_low base decode buf k (n - k)
  reads-radix_low text buf n zero le e = refl
  reads-radix_low text buf n (suc k) le e =
      let at : n - 1 - k ≡ n - suc k = omega arith in
      let up : n - suc k + 1 ≡ n - k = omega arith in
      let char : text k ≡ buf (n - suc k) = rw at at (e k (omega arith)) in
      rw (char, up, reads-radix_low text buf n k (omega arith) e) (omega arith)

  -- What the loop leaves: `k` digits from `idx` on, the highest not 0 unless the number is.
  record RadixDigits (v idx : ℕ) (buf : Buffer) (result : ℕ × Buffer) (k : ℕ) : Type 0 where
    some_digit : 0 < v → 0 < k
    empty : v ≡ 0 → k ≡ 0
    count : result.0 ≡ idx + k
    value : radix_low base decode result.1 k idx ≡ v
    below : (j : ℕ) → j < idx → result.1 j ≡ buf j
    digits : (j : ℕ) → idx ≤ j → j < idx + k → (d : ℕ) × (d < base) × (result.1 j ≡ digit d)
    top : 0 < v → 0 < decode (result.1 (idx + k - 1))

  RadixDigits-cons :
      (v idx k : ℕ) (buf : Buffer) (result : ℕ × Buffer)
      → 0 < v
      → RadixDigits (v / base) (idx + 1) (set_at buf idx (digit (v % base))) result k
      → RadixDigits v idx buf result (suc k)
  RadixDigits-cons v idx k buf result positive d =
      let here : (idx == idx) ≡ true = ground arith in
      let first : result.1 idx ≡ digit (v % base) = d.below idx (omega arith) ∙ rw here in
      let low : decode (result.1 idx) ≡ v % base =
        rw first (radix.decoded (v % base) (radix.below_base v)) in
      let whole = radix.split v in
      let last : v / base ≡ 0 → decode (result.1 (idx + suc k - 1)) ≡ v = (λ z.
        let at : idx + suc k - 1 ≡ idx = omega (arith, d.empty z) in
        rw (at, low) (sym (rw z at whole ∙ omega arith))) in
      record {
        some_digit = λ h. omega arith;
        empty = λ h. absurd (omega arith);
        count = omega (arith, d.count);
        value = rw (low, d.value) (sym whole);
        below =
            λ j h. let ne : (idx == j) ≡ false = ground arith in d.below j (omega arith) ∙ rw ne;
        digits = λ j lo hi. elim (Bool-cases (idx == j)) [
          | inl e ↦ let e' : j ≡ idx = ground arith in (v % base, radix.below_base v, rw e' first)
          | inr e ↦ d.digits j (ground arith) (omega arith)
        ];
        top = λ h. elim (Bool-cases (v / base == 0)) [
          | inl e ↦ let z = last (ground arith) in omega arith
          | inr e ↦
              let at : idx + suc k - 1 ≡ idx + 1 + k - 1 = omega arith in
              rw at (d.top (ground arith))
        ];
      }

  no_digits : (idx : ℕ) (buf : Buffer) → RadixDigits 0 idx buf (idx, buf) 0
  no_digits idx buf = record {
    some_digit = λ h. absurd (omega arith);
    empty = λ h. refl;
    count = omega arith;
    value = refl;
    below = λ j h. refl;
    digits = λ j lo hi. absurd (omega arith);
    top = λ h. absurd (omega arith);
  }

  radix_loop-RadixDigits :
      (r v idx : ℕ) (buf : Buffer)
      → v < base ^ r
      → (k : ℕ) × (k ≤ r) × RadixDigits v idx buf (radix_loop base digit r v idx buf) k
  unfolding radix_loop
  radix_loop-RadixDigits zero zero idx buf fits = (0, omega arith, no_digits idx buf)
  radix_loop-RadixDigits (suc r) zero idx buf fits = (0, omega arith, no_digits idx buf)
  radix_loop-RadixDigits zero (suc v) idx buf fits =
      let one = pow-zero base in absurd (omega (arith, one))
  radix_loop-RadixDigits (suc r) (suc v) idx buf fits =
      let not_zero : (suc v == 0) ≡ false = ground arith in
      let (k, le, d) =
        radix_loop-RadixDigits r (suc v / base) (idx + 1) (set_at buf idx (digit (suc v % base)))
          (radix.shrinks (suc v) r fits) in
      (suc k, omega arith, rw not_zero (RadixDigits-cons (suc v) idx k buf _ (omega arith) d))

  turned-IsRadix :
      (cap v k : ℕ) (buf : Buffer) (result : ℕ × Buffer)
      → 0 < v
      → RadixDigits v 0 buf result k
      → k ≤ cap
      → IsRadix base digit decode cap v (result.0, swap_loop (result.0 / 2) 0 result.0 result.1)
  turned-IsRadix cap v k buf (n, digits) positive d le =
      let len : n ≡ k = omega (arith, d.count) in
      let text = swap_loop (n / 2) 0 n digits in
      let none_left : n - n ≡ 0 = omega arith in
      let some_digit = d.some_digit positive in
      (
        omega arith,
        omega arith,
        reads-radix_low text digits n n (omega arith) (λ i h. swap_loop-reverse n digits i h)
            ∙ rw (none_left, len) d.value,
        (λ i h.
            rw (swap_loop-reverse n digits i h) (d.digits (n - 1 - i) (omega arith) (omega arith))),
        (λ h.
            let e : n - 1 - 0 ≡ 0 + k - 1 = omega arith in
            rw (swap_loop-reverse n digits 0 (omega arith), e) (d.top h)),
      )

-- The text that `make_hex_string` makes of a 64-bit number has from 1 to 16 characters, all of
-- them hexadecimal digits of the case asked for; read from the left in base 16 they stand for the
-- number, and the first is not 0 unless the number is.
pub make_hex_string-IsRadix :
    (buf : Buffer) (v : ℕ) (lowercase : Bool)
    → v < 2 ^ 64
    → IsRadix 16 (hex_digit lowercase) hex_value 16 v (make_hex_string buf v lowercase)
unfolding make_hex_string
make_hex_string-IsRadix buf zero lowercase word = (
  omega arith,
  omega arith,
  refl,
  (λ i h. let first : i ≡ 0 = omega arith in (0, omega arith, rw first)),
  (λ h. absurd (omega arith)),
)
make_hex_string-IsRadix buf (suc v) lowercase word =
    let not_zero : (suc v == 0) ≡ false = ground arith in
    let (k, le, d) =
      radix_loop-RadixDigits 16 (hex_digit lowercase) hex_value (hex_digit-Radix lowercase) 16
        (suc v) 0 buf (omega arith) in
    rw not_zero (
      turned-IsRadix 16 (hex_digit lowercase) hex_value (hex_digit-Radix lowercase) 16 (suc v) k buf
        (radix_loop 16 (hex_digit lowercase) 16 (suc v) 0 buf) (omega arith) d le)

-- The text that `make_bin_string` makes of a 64-bit number has from 1 to 64 characters, each a 0
-- or a 1; read from the left in base 2 they stand for the number, and the first is not 0 unless
-- the number is.
pub make_bin_string-IsRadix :
    (buf : Buffer) (v : ℕ) → v < 2 ^ 64 → IsRadix 2 bin_digit hex_value 64 v (make_bin_string buf v)
unfolding make_bin_string
make_bin_string-IsRadix buf zero word = (
  omega arith,
  omega arith,
  refl,
  (λ i h. let first : i ≡ 0 = omega arith in (0, omega arith, rw first)),
  (λ h. absurd (omega arith)),
)
make_bin_string-IsRadix buf (suc v) word =
    let not_zero : (suc v == 0) ≡ false = ground arith in
    let (k, le, d) =
      radix_loop-RadixDigits 2 bin_digit hex_value bin_digit-Radix 64 (suc v) 0 buf (omega arith) in
    rw not_zero (
      turned-IsRadix 2 bin_digit hex_value bin_digit-Radix 64 (suc v) k buf
        (radix_loop 2 bin_digit 64 (suc v) 0 buf) (omega arith) d le)
