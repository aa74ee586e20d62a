-- ===== src/Util/Number/RoundTrip.antt =====
-- A number that the code of kernel/Source/util/string.c writes in decimal is read back.
use yerp.Memory.{IsMapped, Memory, Outcome, Ptr, done, put, store-eq, ◌>>=◌}
use yerp.Memory.Region.{IsMapped-put}
use yerp.Memory.Text.{IsCStr}
use yerp.Prelude.{
  All, Bool, List, [], arith, false, length, ltb, refl, reverse, some, suc, true, zero, ℕ, ◌+◌, ◌<◌,
  ◌==◌, ◌^◌, ◌∙◌, ◌∷◌, ◌≡◌, ◌≤◌, ◌⊎◌,
}
use yerp.Prelude.Int.{ltb_ℤ, neg_part, negsuc, pos, pos_part, sub_ℕ, ℤ}
use yerp.Util.Number.{
  atol, atoll, end_text, in_range, lltoa, ltoa, read_number, write_digits, write_number, write_zero,
}
use yerp.Util.Number.Read.{read_number-decimal}
use yerp.Util.Number.Text.{
  All-reverse, IsDigit, decimal, decimal-reverse, length-reverse, sign_text,
}
use yerp.Util.Number.Write.{end_text-IsCStr, write_digits-Written}
use yerp.Util.Strtol.{long_max}

-- The text of a number that is not 0.
write_nonzero :
    (f k max n : ℕ) (negative : Bool) (m : Memory) (str : Ptr)
    → n ≤ max
    → n < 10 ^ k
    → k + 1 < f
    → IsMapped m str (k + 2)
    → (m' : Memory) × (ds : List ℕ) × ((do
      (m1, i) ← write_digits f max (pos 10) m str 0 (pos n)
      end_text f m1 str i negative)
        ≡ done m')
      × IsCStr m' str (sign_text negative ds)
      × All IsDigit ds
      × (decimal 0 ds ≡ n)
      × (length ds ≤ k)
      × ((a : Ptr) → (a < str) ⊎ (str + (k + 2) ≤ a) → m' a ≡ m a)
write_nonzero f k max n negative m str le fits fuel room =
    let at : str + 0 ≡ str = omega arith in
    let (m1, ds, e1, len, w1) =
      write_digits-Written f k max m str 0 n le fits (omega arith)
        (λ a lo hi. room a (omega arith) (omega arith)) in
    let w = rw at at w1 in
    let none_before : 0 + length ds ≡ length ds = omega arith in
    let (m2, e2, text, keep) =
      end_text-IsCStr f m m1 str n ds negative w (λ a lo hi. room a lo (omega arith))
        (omega arith) in
    let all : length (reverse ds) ≡ length ds = length-reverse ds in
    (
      m2,
      reverse ds,
      rw (e1, none_before) e2,
      text,
      All-reverse IsDigit ds w.chars,
      decimal-reverse ds ∙ w.value,
      omega (arith, all),
      (λ a out. let out' : (a < str) ⊎ (str + length ds + 2 ≤ a) = ground arith in keep a out'),
    )

-- The text at `str` is the decimal text of `num`, and is read back as `num`.
abbrev pub IsNumber : ℕ → ℕ → Memory → Ptr → ℤ → Type 0
IsNumber max f m str num =
    ((ds : List ℕ) × IsCStr m str (sign_text (ltb_ℤ num (pos 0)) ds)
      × All IsDigit ds
      × (decimal 0 ds ≡ pos_part num + neg_part num))
    × (read_number max f m str ≡ done num)

-- `num` is written at `str` within `k + 2` bytes.
abbrev pub Writes : ℕ → ℕ → ℕ → Memory → Ptr → ℤ → Outcome Memory → Type 0
Writes max f k m str num result =
    (m' : Memory) × (result ≡ done m')
    × IsNumber max f m' str num
    × ((a : Ptr) → (a < str) ⊎ (str + (k + 2) ≤ a) → m' a ≡ m a)

write_zero-Writes :
    (max f k : ℕ) (m : Memory) (str : Ptr)
    → k + 1 < f
    → IsMapped m str (k + 2)
    → Writes max f k m str (pos 0) (write_zero m str)
unfolding write_zero
write_zero-Writes max f k m str fuel room =
    let at : str + 0 ≡ str = omega arith in
    let m1 = put m str b'0' in
    let m2 = put m1 (str + 1) 0 in
    let first : m2 str ≡ some b'0' =
      let ne : (str == str + 1) ≡ false = ground arith in
      let hit : (str == str) ≡ true = ground arith in rw (ne, hit) in
    let second : m2 (str + 1) ≡ some 0 =
      let hit : (str + 1 == str + 1) ≡ true = ground arith in rw hit in
    let text : IsCStr m2 str (b'0' ∷ []) = (first, omega arith, omega arith, second) in
    let digits : All IsDigit (b'0' ∷ []) = ((omega arith, omega arith), tt) in
    let room1 = IsMapped-put m str str b'0' (k + 2) room in
    (
      m2,
      rw (
        at,
        store-eq m str b'0' (room str (omega arith) (omega arith)),
        store-eq m1 (str + 1) 0 (room1 (str + 1) (omega arith) (omega arith)),
      ),
      (
        (b'0' ∷ [], text, digits, refl),
        read_number-decimal f max m2 str false (b'0' ∷ []) text digits (omega arith) (omega arith),
      ),
      (λ a out.
          let ne1 : (a == str) ≡ false = ground arith in
          let ne2 : (a == str + 1) ≡ false = ground arith in rw (ne2, ne1)),
    )

pub write_number-Writes :
    (max f k : ℕ) (m : Memory) (str : Ptr) (num : ℤ)
    → pos_part num + neg_part num ≤ max
    → pos_part num + neg_part num < 10 ^ k
    → k + 1 < f
    → IsMapped m str (k + 2)
    → Writes max f k m str num (write_number max f m num str (pos 10))
unfolding write_number
write_number-Writes max f k m str (pos zero) le fits fuel room =
    write_zero-Writes max f k m str fuel room
write_number-Writes max f k m str (pos (suc n)) le fits fuel room =
    let (m', ds, e, text, digits, value, len, keep) =
      write_nonzero f k max (suc n) false m str (omega arith) (omega arith) fuel room in
    let not_zero : (suc n == 0) ≡ false = ground arith in
    let not_negative : ltb (suc n + 0) 0 ≡ false = ground arith in
    let back =
      read_number-decimal f max m' str false ds text digits (omega (arith, value)) (omega arith) in
    (
      m',
      rw (not_zero, not_negative) e,
      ((ds, rw not_negative text, digits, omega (arith, value)), rw value at back),
      keep,
    )
write_number-Writes max f k m str (negsuc n) le fits fuel room =
    let (m', ds, e, text, digits, value, len, keep) =
      write_nonzero f k max (suc n) true m str (omega arith) (omega arith) fuel room in
    let not_zero : (suc n == 0) ≡ false = ground arith in
    let is_negative : ltb 0 (0 + suc n) ≡ true = ground arith in
    let in_bounds : in_range max (sub_ℕ (suc n) 0) ≡ done (pos (suc n)) = ground arith in
    let back =
      read_number-decimal f max m' str true ds text digits (omega (arith, value)) (omega arith) in
    let minus : sub_ℕ 0 (suc n) ≡ negsuc n = ground arith in
    (
      m',
      rw (not_zero, is_negative, in_bounds) e,
      ((ds, rw is_negative text, digits, omega (arith, value)), rw (value, minus) at back),
      keep,
    )

-- For a `long` other than `LONG_MIN`, a buffer of 21 mapped bytes and fuel for 21 rounds: `ltoa`
-- and `lltoa` with the base 10 end without a fault, change no byte outside the 21, and leave the
-- same memory, from which `atol` and `atoll` read the number back.
pub ltoa-atol :
    (f : ℕ) (m : Memory) (str : Ptr) (num : ℤ)
    → pos_part num + neg_part num ≤ long_max
    → 20 < f
    → IsMapped m str 21
    → (m' : Memory) × (ltoa f m num str (pos 10) ≡ done m')
      × (lltoa f m num str (pos 10) ≡ done m')
      × (atol f m' str ≡ done num)
      × (atoll f m' str ≡ done num)
      × ((a : Ptr) → (a < str) ⊎ (str + 21 ≤ a) → m' a ≡ m a)
unfolding ltoa lltoa atol atoll
ltoa-atol f m str num le fuel room =
    let (m', e, (text, back), keep) =
      write_number-Writes long_max f 19 m str num le (omega arith) fuel room in
    (m', e, e, back, back, keep)
