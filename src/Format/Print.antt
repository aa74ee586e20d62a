-- ===== src/Format/Print.antt =====
-- `puts` and `print` of kernel/Source/core/format.hh: the characters that are put, the first one
-- first. `Serial::put` is given by the list of what it is called with.
use yerp.Format.{Buffer, put_dec}
use yerp.Memory.{Memory, Outcome, Ptr, done, load, out_of_fuel, ◌>>=◌}
use yerp.Prelude.{
  Bool, List, [], if◌then◌else◌, map, suc, zero, ℕ, ◌%◌, ◌++◌, ◌+◌, ◌-◌, ◌==◌, ◌^◌, ◌∷◌,
}
use yerp.Prelude.Int.{negsuc, pos, to_uchar, ℤ}

-- The types that `print` is overloaded for. The integers keep their value before the conversion
-- to `u64`; a `string_view` is the list of its characters, a string of wide characters the list of
-- those before its end, and an array is printed as a slice.
mutual
  pub data Value : Type 0 where
    boolean : Bool → Value
    character : ℤ → Value
    integer : ℤ → Value
    c_string : Ptr → Value
    view : List ℕ → Value
    wide : List ℕ → Value
    slice : Values → Value
    pair : Value → Value → Value
    atomic : Value → Value

  pub data Values : Type 0 where
    no_values : Values
    value_cons : Value → Values → Values

-- `if ( *s == '\n' ) put( '\r' ); put( *s++ );`
abbrev pub put_char : ℕ → List ℕ
put_char c = if c == b'\n' then b'\r' ∷ c ∷ [] else c ∷ []

unfoldable pub puts : ℕ → Memory → Ptr → Outcome (List ℕ)
puts zero m s = out_of_fuel
puts (suc f) m s = do
  c ← load m s
  if c == 0 then done [] else (do out ← puts f m (s + 1); done (put_char c ++ out))

-- `static_cast<u64>( v )`
abbrev pub to_u64 : ℤ → ℕ
to_u64 (pos n) = n % 2 ^ 64
to_u64 (negsuc n) = 2 ^ 64 - 1 - n % 2 ^ 64

abbrev pub blank : Buffer
blank i = 0

abbrev pub comma : List ℕ
comma = b',' ∷ b' ' ∷ []

abbrev pub true_text : List ℕ
true_text = b't' ∷ b'r' ∷ b'u' ∷ b'e' ∷ []

abbrev pub false_text : List ℕ
false_text = b'f' ∷ b'a' ∷ b'l' ∷ b's' ∷ b'e' ∷ []

unfoldable mutual
  pub print : ℕ → Memory → Value → Outcome (List ℕ)
  print f m (boolean b) = done (if b then true_text else false_text)
  print f m (character c) = done (to_uchar c ∷ [])
  print f m (integer v) = done (put_dec blank (to_u64 v))
  print f m (c_string s) = puts f m s
  print f m (view cs) = done cs
  print f m (wide ws) = done (map (λ w. w % 256) ws)
  print f m (slice vs) = do out ← print_elements f m vs; done (b'[' ∷ out ++ b']' ∷ [])
  print f m (pair v w) = do
    first ← print f m v
    second ← print f m w
    done (b'(' ∷ first ++ comma ++ second ++ b')' ∷ [])
  print f m (atomic v) = print f m v

  pub print_elements : ℕ → Memory → Values → Outcome (List ℕ)
  print_elements f m no_values = done []
  print_elements f m (value_cons v no_values) = print f m v
  print_elements f m (value_cons v (value_cons w vs)) = do
    first ← print f m v
    rest ← print_elements f m (value_cons w vs)
    done (first ++ comma ++ rest)
