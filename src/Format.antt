-- ===== src/Format.antt =====
-- The decimal digits of kernel/Source/core/format.hh. A `char` buffer is a function from indices
-- to characters, and the text in it is given by its length.
pub mod Reverse
pub mod Decimal
pub mod Radix
pub mod Spec
pub mod Print
pub mod Printf
use yerp.Prelude.{
  Bool, List, [], if◌then◌else◌, replicate, suc, zero, ℕ, ◌%◌, ◌++◌, ◌+◌, ◌-◌, ◌/◌, ◌==◌, ◌∷◌,
}

abbrev pub Buffer : Type 0
Buffer = ℕ → ℕ

-- `buf[ i ] = c`
abbrev pub set_at : Buffer → ℕ → ℕ → Buffer
set_at buf i c j = if i == j then c else buf j

-- `do { buf[ len++ ] = '0' + v % 10; v /= 10; } while ( v && len < 24 )` with room for `r` more
-- characters: the length and the buffer after the loop.
unfoldable pub dec_loop : ℕ → ℕ → ℕ → Buffer → ℕ × Buffer
dec_loop zero v len buf = (len, buf)
dec_loop (suc r) v len buf =
    let buf' = set_at buf len (48 + v % 10) in
    let rest = dec_loop r (v / 10) (len + 1) buf' in if v / 10 == 0 then (len + 1, buf') else rest

-- `for ( j = 0; j < len / 2; ++j ) swap( buf[ j ], buf[ len - 1 - j ] )` with `k` rounds left.
unfoldable pub swap_loop : ℕ → ℕ → ℕ → Buffer → Buffer
swap_loop zero j len buf = buf
swap_loop (suc k) j len buf =
    swap_loop k (j + 1) len (set_at (set_at buf j (buf (len - 1 - j))) (len - 1 - j) (buf j))

-- The length and the buffer; `buf` is what the static array held before the call.
unfoldable pub make_dec_string : Buffer → ℕ → ℕ × Buffer
make_dec_string buf v =
    let (len, digits) = dec_loop 24 v 0 buf in (len, swap_loop (len / 2) 0 len digits)

-- `while ( len-- ) put( buf[ len ] )`: the characters put, the first one first.
unfoldable pub put_back : ℕ → Buffer → List ℕ
put_back zero buf = []
put_back (suc len) buf = buf len ∷ put_back len buf

-- What `put_dec` puts; `buf` is the uninitialised local array.
unfoldable pub put_dec : Buffer → ℕ → List ℕ
put_dec buf v = let (len, digits) = dec_loop 24 v 0 buf in put_back len digits

-- `print_padded`: the padding, then the `len` characters of the text.
unfoldable pub put_text : ℕ → ℕ → Buffer → List ℕ
put_text zero i buf = []
put_text (suc n) i buf = buf i ∷ put_text n (i + 1) buf

unfoldable pub print_padded : Buffer → ℕ → ℕ → Bool → List ℕ
print_padded str len width zero_pad =
    replicate (width - len) (if zero_pad then b'0' else b' ') ++ put_text len 0 str
