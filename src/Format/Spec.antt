-- ===== src/Format/Spec.antt =====
-- `FormatSpec` and `parse_spec` of kernel/Source/core/format.hh. The specification is the list of
-- the `len` characters from `spec` on, and `++i` drops the first of those that are left.
pub mod Parse
use yerp.Memory.{Outcome, done, fault, ◌>>=◌}
use yerp.Prelude.{
  Bool, List, [], false, if◌then◌else◌, leb, ltb, true, ℕ, ◌&&◌, ◌*◌, ◌+◌, ◌-◌, ◌==◌, ◌∷◌,
}
use yerp.Util.Number.{int_max}

pub record FormatSpec : Type 0 where
  pub alternate : Bool
  pub zero_pad : Bool
  pub width : ℕ
  pub spec_type : ℕ

-- `if ( i < len && spec[ i ] == c ) { …; ++i; }`: whether the character is there, and the rest.
unfoldable pub accept : ℕ → List ℕ → Bool × List ℕ
accept c [] = (false, [])
accept c (x ∷ xs) = if x == c then (true, xs) else (false, x ∷ xs)

-- The loop over the digits of `width`, an `int`, and the rest.
unfoldable pub parse_width : ℕ → List ℕ → Outcome (ℕ × List ℕ)
parse_width width [] = done (width, [])
parse_width width (x ∷ xs) =
    let next = width * 10 + (x - b'0') in
    let rest = parse_width next xs in
    if leb b'0' x && leb x b'9'
    then (if ltb int_max next then fault else rest)
    else done (width, x ∷ xs)

abbrev pub first_or_zero : List ℕ → ℕ
first_or_zero [] = 0
first_or_zero (x ∷ xs) = x

unfoldable pub parse_spec : List ℕ → Outcome FormatSpec
unfolding accept parse_width
parse_spec spec = do
  let (colon, spec1) = accept b':' spec
  let (alternate, spec2) = accept b'#' spec1
  let (zero_pad, spec3) = accept b'0' spec2
  (width, spec4) ← parse_width 0 spec3
  done (record {
    alternate = alternate;
    zero_pad = zero_pad;
    width = width;
    spec_type = first_or_zero spec4;
  })
