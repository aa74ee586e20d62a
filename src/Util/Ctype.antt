-- ===== src/Util/Ctype.antt =====
-- The character tests and conversions of kernel/Source/util/string.c. A character is any `int`,
-- and a test is true when the C function returns a nonzero value.
pub mod Classes
use yerp.Prelude.{Bool, if◌then◌else◌, not, ℕ, ◌&&◌, ◌||◌}
use yerp.Prelude.Int.{eq_ℤ, leb_ℤ, ltb_ℤ, pos, ℤ, ◌+ℤ◌, ◌-ℤ◌}

-- `c >= lo && c <= hi`
abbrev pub between : ℕ → ℕ → ℤ → Bool
between lo hi c = leb_ℤ (pos lo) c && leb_ℤ c (pos hi)

unfoldable pub isdigit : ℤ → Bool
isdigit c = between b'0' b'9' c

unfoldable pub isupper : ℤ → Bool
isupper c = between b'A' b'Z' c

unfoldable pub islower : ℤ → Bool
islower c = between b'a' b'z' c

unfoldable pub isalpha : ℤ → Bool
isalpha c = between b'A' b'Z' c || between b'a' b'z' c

unfoldable pub isalnum : ℤ → Bool
unfolding isalpha isdigit
isalnum c = isalpha c || isdigit c

unfoldable pub iscntrl : ℤ → Bool
iscntrl c = (leb_ℤ (pos 0) c && ltb_ℤ c (pos 32)) || eq_ℤ c (pos 127)

unfoldable pub isgraph : ℤ → Bool
isgraph c = ltb_ℤ (pos 32) c && ltb_ℤ c (pos 127)

unfoldable pub isprint : ℤ → Bool
isprint c = leb_ℤ (pos 32) c && ltb_ℤ c (pos 127)

-- The blank, `\t`, `\n`, `\v`, `\f` and `\r`.
unfoldable pub isspace : ℤ → Bool
isspace c =
    eq_ℤ c (pos 32)
    || eq_ℤ c (pos 9)
    || eq_ℤ c (pos 10)
    || eq_ℤ c (pos 11)
    || eq_ℤ c (pos 12)
    || eq_ℤ c (pos 13)

unfoldable pub ispunct : ℤ → Bool
unfolding isprint isalnum isspace
ispunct c = isprint c && not (isalnum c) && not (isspace c)

unfoldable pub isxdigit : ℤ → Bool
isxdigit c = between b'0' b'9' c || between b'A' b'F' c || between b'a' b'f' c

unfoldable pub tolower : ℤ → ℤ
unfolding isupper ◌+ℤ◌
tolower c = if isupper c then c +ℤ pos 32 else c

unfoldable pub toupper : ℤ → ℤ
unfolding islower ◌-ℤ◌
toupper c = if islower c then c -ℤ pos 32 else c
