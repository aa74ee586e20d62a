-- ===== src/Util/Number/Write.antt =====
-- What the conversions to text write with the base 10.
use mathlib.Core.List.{reverse-append}
use native.Mathlib.Nat.{pow-suc}
use yerp.Memory.{IsMapped, Memory, Ptr, done, is_mapped, put, store, store-eq, ◌>>=◌}
use yerp.Memory.Region.{IsMapped-put, IsMapped-suc}
use yerp.Memory.Text.{Holds, Holds-frame, IsCStr, IsCStr-of_Holds}
use yerp.Prelude.{
  All, Bool, List, [], arith, false, inl, inr, length, length-append, refl, reverse, suc, true,
  zero, ℕ, ◌%◌, ◌++◌, ◌+◌, ◌/◌, ◌<◌, ◌==◌, ◌^◌, ◌∙◌, ◌∷◌, ◌≡◌, ◌≤◌, ◌⊎◌,
}
use yerp.Prelude.Int.{eq_ℤ, pos, ◌+ℤ◌, ◌-ℤ◌}
use yerp.Util.Number.{digit_char, end_text, in_range, quot, rem, reverse_text, write_digits}
use yerp.Util.Number.Reverse.{reverse_text-Holds}
use yerp.Util.Number.Text.{
  All-append, All-reverse, Holds-append, IsDigit, length-reverse, low_decimal, sign_text,
}

-- The digits of `n`, the lowest first, stand in `m'` from `p` on where `m` had room.
pub record Written (m : Memory) (p n : ℕ) (m' : Memory) (ds : List ℕ) : Type 0 where
  pub text : Holds m' p ds
  pub value : low_decimal ds ≡ n
  pub chars : All IsDigit ds
  pub frame : (a : Ptr) → (a < p) ⊎ (p + length ds ≤ a) → m' a ≡ m a

digit_char-eq : (n : ℕ) → digit_char (rem (pos n) (pos 10)) ≡ 48 + n % 10
unfolding digit_char rem ◌+ℤ◌ ◌-ℤ◌
digit_char-eq n = ground arith

quot-eq : (n max : ℕ) → n ≤ max → in_range max (quot (pos n) (pos 10)) ≡ done (pos (n / 10))
unfolding quot
quot-eq n max h = ground arith

Written-cons :
    (m m' : Memory) (p n : ℕ) (ds : List ℕ)
    → Written (put m p (48 + n % 10)) (p + 1) (n / 10) m' ds
    → Written m p n m' ((48 + n % 10) ∷ ds)
Written-cons m m' p n ds w =
    let hit : (p == p) ≡ true = ground arith in
    record {
      text = (w.frame p (inl (omega arith)) ∙ rw hit, w.text);
      value = rw (w.value) (omega arith);
      chars = ((omega arith, omega arith), w.chars);
      frame = λ a out.
          let ne : (a == p) ≡ false = ground arith in
          let out' : (a < p + 1) ⊎ (p + 1 + length ds ≤ a) = ground arith in w.frame a out' ∙ rw ne;
    }

pub write_digits-Written :
    (f k max : ℕ) (m : Memory) (str i n : ℕ)
    → n ≤ max
    → n < 10 ^ k
    → k < f
    → IsMapped m (str + i) k
    → (m' : Memory) × (ds : List ℕ) × (write_digits f max (pos 10) m str i (pos n)
        ≡ done (m', i + length ds))
      × (length ds ≤ k)
      × Written m (str + i) n m' ds
unfolding write_digits
write_digits-Written zero k max m str i n le fits fuel room = absurd (omega arith)
write_digits-Written (suc f) k max m str i zero le fits fuel room =
    let e : i + 0 ≡ i = omega arith in
    (
      m,
      [],
      rw e,
      omega arith,
      record { text = tt; value = refl; chars = tt; frame = λ a out. refl },
    )
write_digits-Written (suc f) zero max m str i (suc n) le fits fuel room = absurd (omega arith)
write_digits-Written (suc f) (suc k) max m str i (suc n) le fits fuel room =
    let v = 48 + suc n % 10 in
    let m1 = put m (str + i) v in
    let next : str + i + 1 ≡ str + (i + 1) = omega arith in
    let room1 = IsMapped-put m (str + i + 1) (str + i) v k (IsMapped-suc m (str + i) k room) in
    let not_zero : eq_ℤ (pos (suc n)) (pos 0) ≡ false = ground arith in
    let power = pow-suc 10 k in
    let (m2, ds, e, len, w) =
      write_digits-Written f k max m1 str (i + 1) (suc n / 10) (omega arith) (omega (arith, power))
        (omega arith) (rw next at room1) in
    let count : i + 1 + length ds ≡ i + suc (length ds) = omega arith in
    (
      m2,
      v ∷ ds,
      rw
          (
            not_zero,
            digit_char-eq (suc n),
            store-eq m (str + i) v (room (str + i) (omega arith) (omega arith)),
            quot-eq (suc n) max le,
          )
          (rw count at e),
      omega arith,
      Written-cons m m2 (str + i) (suc n) ds (rw next w),
    )

pub IsDigit-chars : (xs : List ℕ) → All IsDigit xs → All (λ x. (0 < x) × (x < 256)) xs
IsDigit-chars [] h = tt
IsDigit-chars (x ∷ xs) h = ((omega (arith, h.0.0), omega (arith, h.0.1)), IsDigit-chars xs h.1)

-- A text of the length `n`, closed by a zero and turned round.
close_text :
    (f : ℕ) (m1 : Memory) (str n : ℕ) (xs : List ℕ)
    → length xs ≡ n
    → Holds m1 str xs
    → All (λ x. (0 < x) × (x < 256)) xs
    → is_mapped m1 (str + n) ≡ true
    → n < f
    → (m' : Memory) × ((do m2 ← store m1 (str + n) 0; reverse_text f m2 str n) ≡ done m')
      × IsCStr m' str (reverse xs)
      × ((a : Ptr) → (a < str) ⊎ (str + n < a) → m' a ≡ m1 a)
close_text f m1 str n xs len text chars at_end fuel =
    let end = str + n in
    let hit : (end == end) ≡ true = ground arith in
    let m2 = put m1 end 0 in
    let text2 : Holds m2 str xs =
      Holds-frame m1 m2 str xs text
        (λ a lo hi. let ne : (a == end) ≡ false = ground (arith, len) in rw ne) in
    let (m3, e3, text3, keep3) = reverse_text-Holds f m2 str n xs len text2 fuel in
    let len3 : length (reverse xs) ≡ n = length-reverse xs ∙ len in
    (
      m3,
      rw (store-eq m1 end 0 at_end) e3,
      IsCStr-of_Holds m3 str (reverse xs) text3 (All-reverse (λ x. (0 < x) × (x < 256)) xs chars)
          (rw len3 (keep3 end (inr (omega arith)) ∙ rw hit)),
      (λ a out.
          let out3 : (a < str) ⊎ (end ≤ a) = ground arith in
          let ne : (a == end) ≡ false = ground arith in keep3 a out3 ∙ rw ne),
    )

-- The end of the conversion after digits that stand for `n`.
pub end_text-IsCStr :
    (f : ℕ) (m m1 : Memory) (str n : ℕ) (ds : List ℕ) (negative : Bool)
    → Written m str n m1 ds
    → IsMapped m str (length ds + 2)
    → length ds + 1 < f
    → (m' : Memory) × (end_text f m1 str (length ds) negative ≡ done m')
      × IsCStr m' str (sign_text negative (reverse ds))
      × ((a : Ptr) → (a < str) ⊎ (str + length ds + 2 ≤ a) → m' a ≡ m a)
unfolding end_text
end_text-IsCStr f m m1 str n ds true w room fuel =
    let end = str + length ds in
    let hit : (end == end) ≡ true = ground arith in
    let at_end : is_mapped m1 end ≡ true =
      rw (is_mapped, w.frame end (inr (omega arith))) (room end (omega arith) (omega arith)) in
    let m2 = put m1 end b'-' in
    let keep2 : (a : Ptr) → (a < str) ⊎ (end < a) → m2 a ≡ m a = (λ a out.
      let ne : (a == end) ≡ false = ground arith in
      let out' : (a < str) ⊎ (end ≤ a) = ground arith in rw ne (w.frame a out')) in
    let digits2 : Holds m2 str ds =
      Holds-frame m1 m2 str ds w.text
        (λ a lo hi. let ne : (a == end) ≡ false = ground arith in rw ne) in
    let text2 : Holds m2 str (ds ++ b'-' ∷ []) =
      Holds-append m2 str ds (b'-' ∷ []) digits2 (rw hit, tt) in
    let len : length (ds ++ b'-' ∷ []) ≡ length ds + 1 = length-append ds (b'-' ∷ []) in
    let mapped2 : is_mapped m2 (str + (length ds + 1)) ≡ true =
      rw (is_mapped, keep2 (str + (length ds + 1)) (inr (omega arith)))
        (room (str + (length ds + 1)) (omega arith) (omega arith)) in
    let (m3, e3, text3, keep3) =
      close_text f m2 str (length ds + 1) (ds ++ b'-' ∷ []) len text2
        (All-append (λ x. (0 < x) × (x < 256)) ds (b'-' ∷ []) (IsDigit-chars ds w.chars)
          ((omega arith, omega arith), tt))
        mapped2 fuel in
    (
      m3,
      rw (store-eq m1 end b'-' at_end) e3,
      rw (reverse-append ds (b'-' ∷ [])) at text3,
      (λ a out.
          let out3 : (a < str) ⊎ (str + (length ds + 1) < a) = ground arith in
          let out2 : (a < str) ⊎ (end < a) = ground arith in keep3 a out3 ∙ keep2 a out2),
    )
end_text-IsCStr f m m1 str n ds false w room fuel =
    let end = str + length ds in
    let at_end : is_mapped m1 end ≡ true =
      rw (is_mapped, w.frame end (inr (omega arith))) (room end (omega arith) (omega arith)) in
    let (m3, e3, text3, keep3) =
      close_text f m1 str (length ds) ds refl w.text (IsDigit-chars ds w.chars) at_end
        (omega arith) in
    (
      m3,
      e3,
      text3,
      (λ a out.
          let out3 : (a < str) ⊎ (end < a) = ground arith in
          let out' : (a < str) ⊎ (end ≤ a) = ground arith in keep3 a out3 ∙ w.frame a out'),
    )
