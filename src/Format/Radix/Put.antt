-- ===== src/Format/Radix/Put.antt =====
-- `put_hex` and `put_bin` put the digits of their number.
use native.Mathlib.Nat.{pow-suc, pow-zero, div-div-eq-div-mul, div-one, div-eq_of_lt}
use yerp.Format.Radix.{bin_digit, hex_digit, put_bin, put_bin_loop, put_hex, put_hex_loop}
use yerp.Format.Radix.Texts.{bin_digit-Radix, hex_digit-Radix, hex_value}
use yerp.Prelude.{
  List, [], ap, arith, false, length, refl, suc, zero, ℕ, ◌%◌, ◌*◌, ◌+◌, ◌/◌, ◌<◌, ◌^◌, ◌∙◌, ◌∷◌,
  ◌≡◌,
}

-- The number that a text stands for, read from the left after the number `acc`.
abbrev pub radix_value : ℕ → ℕ → List ℕ → ℕ
radix_value base acc [] = acc
radix_value base acc (x ∷ xs) = radix_value base (base * acc + hex_value x) xs

next_power : (base k v : ℕ) → v / base ^ suc k ≡ v / base ^ k / base
next_power base k v = rw (pow-suc base k, div-div-eq-div-mul v (base ^ k) base)

put_hex_loop-value : (k v : ℕ) → radix_value 16 (v / 16 ^ k) (put_hex_loop k v) ≡ v
unfolding put_hex_loop
put_hex_loop-value zero v = rw (pow-zero 16, div-one v)
put_hex_loop-value (suc k) v =
    let q = v / 16 ^ k in
    let digit = (hex_digit-Radix false).decoded (q % 16) (omega arith) in
    let power = next_power 16 k v in
    let whole : 16 * (v / 16 ^ suc k) + hex_value (hex_digit false (q % 16)) ≡ q =
      omega (arith, digit, power) in
    ap (λ acc. radix_value 16 acc (put_hex_loop k v)) whole ∙ put_hex_loop-value k v

length-put_hex_loop : (k v : ℕ) → length (put_hex_loop k v) ≡ k
unfolding put_hex_loop
length-put_hex_loop zero v = refl
length-put_hex_loop (suc k) v = ap suc (length-put_hex_loop k v)

put_bin_loop-value : (k v : ℕ) → radix_value 2 (v / 2 ^ k) (put_bin_loop k v) ≡ v
unfolding put_bin_loop
put_bin_loop-value zero v = rw (pow-zero 2, div-one v)
put_bin_loop-value (suc k) v =
    let q = v / 2 ^ k in
    let digit = bin_digit-Radix.decoded (q % 2) (omega arith) in
    let power = next_power 2 k v in
    let whole : 2 * (v / 2 ^ suc k) + hex_value (bin_digit (q % 2)) ≡ q =
      omega (arith, digit, power) in
    ap (λ acc. radix_value 2 acc (put_bin_loop k v)) whole ∙ put_bin_loop-value k v

length-put_bin_loop : (k v : ℕ) → length (put_bin_loop k v) ≡ k
unfolding put_bin_loop
length-put_bin_loop zero v = refl
length-put_bin_loop (suc k) v = ap suc (length-put_bin_loop k v)

-- `put_hex` of a number below `16 ^ k` puts "0x" and then `k` characters that stand for the
-- number in base 16, and `put_bin` of a number below `2 ^ n` puts "0b" and then `n` characters
-- that stand for it in base 2.
pub put_hex-put_bin :
    (k n v w : ℕ)
    → v < 16 ^ k
    → w < 2 ^ n
    → ((hs : List ℕ) × (put_hex v k ≡ b'0' ∷ b'x' ∷ hs)
        × (length hs ≡ k)
        × (radix_value 16 0 hs ≡ v))
      × ((bs : List ℕ) × (put_bin w n ≡ b'0' ∷ b'b' ∷ bs)
          × (length bs ≡ n)
          × (radix_value 2 0 bs ≡ w))
unfolding put_hex put_bin
put_hex-put_bin k n v w small_v small_w =
    let no_hex : v / 16 ^ k ≡ 0 = div-eq_of_lt small_v in
    let no_bin : w / 2 ^ n ≡ 0 = div-eq_of_lt small_w in
    (
      (put_hex_loop k v, refl, length-put_hex_loop k v, rw no_hex at (put_hex_loop-value k v)),
      (put_bin_loop n w, refl, length-put_bin_loop n w, rw no_bin at (put_bin_loop-value n w)),
    )
