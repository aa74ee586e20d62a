-- ===== src/Format/Radix.antt =====
-- The hexadecimal and binary digits of kernel/Source/core/format.hh: `make_hex_string`,
-- `make_bin_string`, `put_hex` and `put_bin`.
pub mod Texts
pub mod Put
use yerp.Format.{Buffer, set_at, swap_loop}
use yerp.Prelude.{
  Bool, List, [], false, if◌then◌else◌, ltb, suc, zero, ℕ, ◌%◌, ◌+◌, ◌/◌, ◌==◌, ◌^◌, ◌∷◌,
}

-- `"0123456789ABCDEF"[ d ]` and `"0123456789abcdef"[ d ]`
abbrev pub hex_digit : Bool → ℕ → ℕ
hex_digit lowercase d = if ltb d 10 then 48 + d else (if lowercase then 87 + d else 55 + d)

abbrev pub bin_digit : ℕ → ℕ
bin_digit d = if d == 0 then b'0' else b'1'

-- `while ( v && idx < 16 ) { buf[ idx++ ] = table[ v & 0xF ]; v >>= 4; }` for the base 16, and
-- the loop of `make_bin_string` for the base 2, with room for `r` more characters.
unfoldable pub radix_loop : ℕ → (ℕ → ℕ) → ℕ → ℕ → ℕ → Buffer → ℕ × Buffer
radix_loop base digit zero v idx buf = (idx, buf)
radix_loop base digit (suc r) v idx buf =
    let rest = radix_loop base digit r (v / base) (idx + 1) (set_at buf idx (digit (v % base))) in
    if v == 0 then (idx, buf) else rest

-- The length and the buffer; `buf` is what the static array held before the call.
unfoldable pub make_hex_string : Buffer → ℕ → Bool → ℕ × Buffer
make_hex_string buf v lowercase =
    if v == 0
    then (1, set_at buf 0 b'0')
    else (let (idx, digits) = radix_loop 16 (hex_digit lowercase) 16 v 0 buf in
        (idx, swap_loop (idx / 2) 0 idx digits))

unfoldable pub make_bin_string : Buffer → ℕ → ℕ × Buffer
make_bin_string buf v =
    if v == 0
    then (1, set_at buf 0 b'0')
    else (let (idx, digits) = radix_loop 2 bin_digit 64 v 0 buf in
        (idx, swap_loop (idx / 2) 0 idx digits))

-- `put(hex[(v >> i) & 0xF])` for `i` from `(digits - 1) * 4` down to 0; `digits` is at
-- most 16, so that no shift reaches 64.
unfoldable pub put_hex_loop : ℕ → ℕ → List ℕ
put_hex_loop zero v = []
put_hex_loop (suc k) v = hex_digit false (v / 16 ^ k % 16) ∷ put_hex_loop k v

unfoldable pub put_hex : ℕ → ℕ → List ℕ
put_hex v digits = b'0' ∷ b'x' ∷ put_hex_loop digits v

-- `put((v >> i) & 1 ? '1' : '0')` for `i` from `bits - 1` down to 0; `bits` is at most 64.
unfoldable pub put_bin_loop : ℕ → ℕ → List ℕ
put_bin_loop zero v = []
put_bin_loop (suc k) v = bin_digit (v / 2 ^ k % 2) ∷ put_bin_loop k v

unfoldable pub put_bin : ℕ → ℕ → List ℕ
put_bin v bits = b'0' ∷ b'b' ∷ put_bin_loop bits v
