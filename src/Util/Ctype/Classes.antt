-- ===== src/Util/Ctype/Classes.antt =====
-- How the character tests and conversions relate.
use yerp.Prelude.{arith, false, true, ◌&&◌, ◌||◌, ◌≡◌}
use yerp.Prelude.Int.{eq_ℤ, negsuc, pos, ℤ}
use yerp.Util.Ctype.{
  isalnum, isalpha, iscntrl, isgraph, islower, isprint, ispunct, isupper, tolower, toupper,
}

isprint_cases : (c : ℤ) → isprint c ≡ (isgraph c || eq_ℤ c (pos 32))
unfolding isprint isgraph
isprint_cases (pos c) = ground arith
isprint_cases (negsuc c) = ground arith

tolower_letter :
    (c : ℤ) → isupper c ≡ true → (islower (tolower c) ≡ true) × (toupper (tolower c) ≡ c)
unfolding isupper islower tolower toupper
tolower_letter (pos c) h = ground arith
tolower_letter (negsuc c) h = ground arith

toupper_letter :
    (c : ℤ) → islower c ≡ true → (isupper (toupper c) ≡ true) × (tolower (toupper c) ≡ c)
unfolding isupper islower tolower toupper
toupper_letter (pos c) h = ground arith
toupper_letter (negsuc c) h = ground arith

-- For every `int`: an upper case letter becomes a lower case letter under `tolower` and comes
-- back under `toupper`, the other way round likewise, and each conversion leaves every other
-- character as it is.
pub tolower-toupper :
    (c : ℤ)
    → (isupper c ≡ true → (islower (tolower c) ≡ true) × (toupper (tolower c) ≡ c))
      × (islower c ≡ true → (isupper (toupper c) ≡ true) × (tolower (toupper c) ≡ c))
      × (isupper c ≡ false → tolower c ≡ c)
      × (islower c ≡ false → toupper c ≡ c)
unfolding tolower toupper
tolower-toupper c = (tolower_letter c, toupper_letter c, (λ h. rw h), (λ h. rw h))

-- For every `int`: a character is printable when it is graphic or the blank, a graphic one is
-- alphanumeric or punctuation and never both, a letter is of exactly one case, and no character
-- is both printable and a control character.
pub isgraph-ispunct :
    (c : ℤ)
    → (isprint c ≡ (isgraph c || eq_ℤ c (pos 32)))
      × (isgraph c ≡ (isalnum c || ispunct c))
      × ((isalnum c && ispunct c) ≡ false)
      × (isalpha c ≡ (isupper c || islower c))
      × ((isupper c && islower c) ≡ false)
      × ((isprint c && iscntrl c) ≡ false)
unfolding isprint isgraph isalnum ispunct isalpha isupper islower iscntrl
isgraph-ispunct (pos c) =
    (ground arith, ground arith, ground arith, ground arith, ground arith, ground arith)
isgraph-ispunct (negsuc c) =
    (ground arith, ground arith, ground arith, ground arith, ground arith, ground arith)
