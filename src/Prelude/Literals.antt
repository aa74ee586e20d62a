-- ===== src/Prelude/Literals.antt =====
-- String literals of the source as lists of bytes.
use Prim.Native.Char.{code}
use Prim.Native.String.{String}
use yerp.Prelude.{List, ℕ}

-- The bytes of a literal of ASCII characters, without its terminator.
abbrev pub bytes : String → List ℕ
bytes String.[] = List.[]
bytes (String.◌∷◌ c s) = List.◌∷◌ (code c) (bytes s)
