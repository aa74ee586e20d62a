-- ===== src/Format/Decimal.antt =====
-- `make_dec_string` and `put_dec` write the decimal digits of their number.
use native.Mathlib.Nat.{pow-suc}
use yerp.Format.{
  Buffer, dec_loop, make_dec_string, print_padded, put_back, put_dec, put_text, set_at, swap_loop,
}
use yerp.Format.Reverse.{swap_loop-reverse}
use yerp.Prelude.{
  Bool-cases, arith, false, inl, inr, refl, suc, sym, true, zero, ℕ, ◌%◌, ◌*◌, ◌+◌, ◌-◌, ◌/◌, ◌<◌,
  ◌==◌, ◌^◌, ◌∙◌, ◌≡◌, ◌≢◌, ◌≤◌,
}

-- The number that the first `n` characters of a text stand for, read from the left.
unfoldable pub reads : Buffer → ℕ → ℕ
reads text zero = 0
reads text (suc n) = reads text n * 10 + (text n - 48)

-- The number that `k` characters from `lo` on stand for, the lowest digit first.
low_reads : Buffer → ℕ → ℕ → ℕ
low_reads buf zero lo = 0
low_reads buf (suc k) lo = (buf lo - 48) + 10 * low_reads buf k (lo + 1)

reads-low_reads :
    (text buf : Buffer) (n k : ℕ)
    → k ≤ n
    → ((i : ℕ) → i < n → text i ≡ buf (n - 1 - i))
    → reads text k ≡ low_reads buf k (n - k)
unfolding reads low_reads
reads-low_reads text buf n zero le e = refl
reads-low_reads text buf n (suc k) le e =
    let at : n - 1 - k ≡ n - suc k = omega arith in
    let up : n - suc k + 1 ≡ n - k = omega arith in
    let char : text k ≡ buf (n - suc k) = rw at at (e k (omega arith)) in
    rw (char, up, reads-low_reads text buf n k (omega arith) e) (omega arith)

abbrev pub IsDigit : ℕ → Type 0
IsDigit c = (48 ≤ c) × (c ≤ 57)

-- What the loop leaves: `k` digits from `len` on, the highest not 0 unless the number is.
record Digits (v len : ℕ) (buf : Buffer) (result : ℕ × Buffer) (k : ℕ) : Type 0 where
  some_digit : 0 < k
  count : result.0 ≡ len + k
  value : low_reads result.1 k len ≡ v
  below : (j : ℕ) → j < len → result.1 j ≡ buf j
  digits : (j : ℕ) → len ≤ j → j < len + k → IsDigit (result.1 j)
  top : 0 < v → 48 < result.1 (len + k - 1)

Digits-last :
    (v len : ℕ) (buf : Buffer)
    → v / 10 ≡ 0
    → Digits v len buf (len + 1, set_at buf len (48 + v % 10)) 1
unfolding low_reads
Digits-last v len buf small =
    let here : (len == len) ≡ true = ground arith in
    record {
      some_digit = omega arith;
      count = refl;
      value = rw here (omega arith);
      below = λ j h. let ne : (len == j) ≡ false = ground arith in rw ne;
      digits = λ j lo hi. let hit : (len == j) ≡ true = ground arith in rw hit (omega arith);
      top = λ h. let hit : (len == len + 1 - 1) ≡ true = ground arith in rw hit (omega arith);
    }

Digits-cons :
    (v len k : ℕ) (buf : Buffer) (result : ℕ × Buffer)
    → v / 10 ≢ 0
    → Digits (v / 10) (len + 1) (set_at buf len (48 + v % 10)) result k
    → Digits v len buf result (suc k)
unfolding low_reads
Digits-cons v len k buf result large d =
    let here : (len == len) ≡ true = ground arith in
    let first : result.1 len ≡ 48 + v % 10 = d.below len (omega arith) ∙ rw here in
    let end : len + suc k - 1 ≡ len + 1 + k - 1 = omega arith in
    record {
      some_digit = omega arith;
      count = omega (arith, d.count);
      value = rw (first, d.value) (omega arith);
      below = λ j h. let ne : (len == j) ≡ false = ground arith in d.below j (omega arith) ∙ rw ne;
      digits = λ j lo hi. elim (Bool-cases (len == j)) [
        | inl e ↦ let e' : j ≡ len = ground arith in rw (e', first) (omega arith)
        | inr e ↦ d.digits j (ground arith) (omega arith)
      ];
      top = λ h. rw end (d.top (omega arith));
    }

dec_loop-Digits :
    (r v len : ℕ) (buf : Buffer)
    → v < 10 ^ r
    → 0 < r
    → (k : ℕ) × (k ≤ r) × Digits v len buf (dec_loop r v len buf) k
unfolding dec_loop
dec_loop-Digits zero v len buf fits room = absurd (omega arith)
dec_loop-Digits (suc r) v len buf fits room = elim (Bool-cases (v / 10 == 0)) [
  | inl e ↦ (1, omega arith, rw e (Digits-last v len buf (ground arith)))
  | inr e ↦
      let power = pow-suc 10 r in
      let (k, le, d) =
        dec_loop-Digits r (v / 10) (len + 1) (set_at buf len (48 + v % 10)) (omega (arith, power))
          (room_left r v fits (ground arith)) in
      (suc k, omega arith, rw e (Digits-cons v len k buf _ (ground arith) d))
]
  where
    room_left : (r v : ℕ) → v < 10 ^ suc r → v / 10 ≢ 0 → 0 < r
    room_left zero v fits large = absurd (large (omega arith))
    room_left (suc r) v fits large = omega arith

-- `n` characters that read as the number `v` from the left, with no needless zero in front.
abbrev pub IsDecimal : ℕ → ℕ × Buffer → Type 0
IsDecimal v (n, text) =
    (0 < n)
    × (n ≤ 24)
    × (reads text n ≡ v)
    × ((i : ℕ) → i < n → IsDigit (text i))
    × (0 < v → 48 < text 0)

turned-IsDecimal :
    (v k : ℕ) (buf : Buffer) (result : ℕ × Buffer)
    → Digits v 0 buf result k
    → k ≤ 24
    → IsDecimal v (result.0, swap_loop (result.0 / 2) 0 result.0 result.1)
turned-IsDecimal v k buf (n, digits) d le =
    let len : n ≡ k = omega (arith, d.count) in
    let text = swap_loop (n / 2) 0 n digits in
    let none_left : n - n ≡ 0 = omega arith in
    (
      omega (arith, d.some_digit),
      omega arith,
      reads-low_reads text digits n n (omega arith) (λ i h. swap_loop-reverse n digits i h)
          ∙ rw (none_left, len) d.value,
      (λ i h.
          rw (swap_loop-reverse n digits i h) (d.digits (n - 1 - i) (omega arith) (omega arith))),
      (λ h.
          let e : n - 1 - 0 ≡ 0 + k - 1 = omega arith in
          rw (swap_loop-reverse n digits 0 (omega (arith, d.some_digit)), e) (d.top h)),
    )

-- The text that `make_dec_string` makes of a 64-bit number has from 1 to 24 characters, all of
-- them decimal digits; read from the left they stand for the number, and the first is not 0
-- unless the number is.
pub make_dec_string-IsDecimal :
    (buf : Buffer) (v : ℕ) → v < 2 ^ 64 → IsDecimal v (make_dec_string buf v)
unfolding make_dec_string
make_dec_string-IsDecimal buf v word =
    let (k, le, d) = dec_loop-Digits 24 v 0 buf (omega arith) (omega arith) in
    turned-IsDecimal v k buf (dec_loop 24 v 0 buf) d le

put_text-put_back :
    (n lo : ℕ) (text buf : Buffer)
    → ((i : ℕ) → lo ≤ i → i < lo + n → text i ≡ buf (lo + n - 1 - i))
    → put_text n lo text ≡ put_back n buf
unfolding put_text put_back
put_text-put_back zero lo text buf e = refl
put_text-put_back (suc n) lo text buf e =
    let at : lo + suc n - 1 - lo ≡ n = omega arith in
    let first : text lo ≡ buf n = rw at at (e lo (omega arith) (omega arith)) in
    rw (
      first,
      put_text-put_back n (lo + 1) text buf (λ i lo' hi.
          let same : lo + 1 + n - 1 - i ≡ lo + suc n - 1 - i = omega arith in
          rw same (e i (omega arith) (omega arith))),
    )

turned-print_padded :
    (n : ℕ) (digits : Buffer)
    → put_back n digits ≡ print_padded (swap_loop (n / 2) 0 n digits) n 0 false
unfolding print_padded
turned-print_padded n digits =
    let no_padding : 0 - n ≡ 0 = omega arith in
    rw no_padding (
      sym (
        put_text-put_back n 0 (swap_loop (n / 2) 0 n digits) digits (λ i lo hi.
          let at : 0 + n - 1 - i ≡ n - 1 - i = omega arith in
          rw at (swap_loop-reverse n digits i (omega arith)))))

-- `put_dec` puts the same characters as `print_padded` of the text of `make_dec_string` with no
-- width and blanks for padding, when their two arrays begin with the same contents.
pub put_dec-print_padded :
    (buf : Buffer) (v : ℕ)
    → put_dec buf v ≡ print_padded (make_dec_string buf v).1 (make_dec_string buf v).0 0 false
unfolding make_dec_string put_dec
put_dec-print_padded buf v = turned-print_padded (dec_loop 24 v 0 buf).0 (dec_loop 24 v 0 buf).1
