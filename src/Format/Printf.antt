-- ===== src/Format/Printf.antt =====
-- `route`, `print_with_spec` and `printf` of kernel/Source/core/format.hh: the characters that are
-- put.
pub mod Fields
pub mod Hex
pub mod Words
use yerp.Format.{make_dec_string, print_padded}
use yerp.Format.Print.{
  Value, atomic, blank, boolean, c_string, character, integer, pair, print, put_char, puts, slice,
  to_u64, view, wide,
}
use yerp.Format.Radix.{make_bin_string, make_hex_string}
use yerp.Format.Spec.{FormatSpec, parse_spec}
use yerp.Memory.{Memory, Outcome, Ptr, done, load, out_of_fuel, ◌>>=◌}
use yerp.Prelude.{List, [], false, if◌then◌else◌, suc, zero, ℕ, ◌++◌, ◌+◌, ◌==◌, ◌||◌, ◌∷◌}

-- What `printf` is given: a value, a pointer that is no string, or a value of another type.
pub data Arg : Type 0 where
  value : Value → Arg
  pointer : ℕ → Arg
  unsupported : Arg

-- The branch of `route` for an integral type, `char` and `bool` included.
unfoldable pub route_integral : ℕ → FormatSpec → List ℕ
route_integral val fs =
    if fs.spec_type == b'x' || fs.spec_type == b'X'
    then (let (len, buf) = make_hex_string blank val (fs.spec_type == b'x') in
        (if fs.alternate then b'0' ∷ fs.spec_type ∷ [] else [])
        ++ print_padded buf len fs.width fs.zero_pad)
    else (if fs.spec_type == b'b'
        then (let (len, buf) = make_bin_string blank val in
            (if fs.alternate then b'0' ∷ b'b' ∷ [] else [])
            ++ print_padded buf len fs.width fs.zero_pad)
        else (let (len, buf) = make_dec_string blank val in
            print_padded buf len fs.width fs.zero_pad))

abbrev pub unsupported_text : List ℕ
unsupported_text =
    b'[' ∷ b'u' ∷ b'n' ∷ b's' ∷ b'u' ∷ b'p' ∷ b'p' ∷ b'o' ∷ b'r' ∷ b't' ∷ b'e' ∷ b'd' ∷ b']' ∷ []

-- Each call of a `make_` function writes the characters that `print_padded` reads, so what their
-- static arrays held before is left out.
unfoldable pub route : ℕ → Memory → Arg → FormatSpec → Outcome (List ℕ)
route f m (value (boolean b)) fs = done (route_integral (if b then 1 else 0) fs)
route f m (value (character c)) fs = done (route_integral (to_u64 c) fs)
route f m (value (integer v)) fs = done (route_integral (to_u64 v) fs)
route f m (value (c_string s)) fs = print f m (c_string s)
route f m (value (view cs)) fs = print f m (view cs)
route f m (value (wide ws)) fs = print f m (wide ws)
route f m (value (slice vs)) fs = print f m (slice vs)
route f m (value (pair v w)) fs = print f m (pair v w)
route f m (value (atomic v)) fs = print f m (atomic v)
route f m (pointer p) fs =
    let (len, buf) = make_hex_string blank p false in
    done (print_padded buf len fs.width fs.zero_pad)
route f m unsupported fs = done unsupported_text

unfoldable pub print_with_spec : ℕ → Memory → Arg → List ℕ → Outcome (List ℕ)
print_with_spec f m v spec = do fs ← parse_spec spec; route f m v fs

-- `while ( *p && *p != '}' ) ++p; …; if ( *p == '}' ) ++p;`: the characters passed, and `p`.
unfoldable pub scan_spec : ℕ → Memory → Ptr → Outcome (List ℕ × Ptr)
scan_spec zero m p = out_of_fuel
scan_spec (suc f) m p = do
  c ← load m p
  if c == 0
      then done ([], p)
      else (if c == b'}'
          then done ([], p + 1)
          else (do (spec, p') ← scan_spec f m (p + 1); done (c ∷ spec, p')))

-- With no value left `printf` puts the text as it is.
unfoldable pub printf : ℕ → Memory → Ptr → List Arg → Outcome (List ℕ)
printf f m p [] = puts f m p
printf zero m p (v ∷ rest) = out_of_fuel
printf (suc f) m p (v ∷ rest) = do
  c ← load m p
  if c == 0
      then done []
      else (if c == b'{'
          then (do
            c' ← load m (p + 1)
            if c' == b'{' then (do out ← printf f m (p + 2) (v ∷ rest); done (b'{' ∷ out)) else (do
              (spec, p') ← scan_spec f m (p + 1)
              field ← print_with_spec f m v spec
              out ← printf f m p' rest
              done (field ++ out)))
          else (do out ← printf f m (p + 1) (v ∷ rest); done (put_char c ++ out)))
