-- ===== src/Examples/Strings.antt =====
-- The string functions at a small memory.
use yerp.Memory.{IsMapped, Memory, Ptr, done, fault, is_mapped, load}
use yerp.Memory.Order.{Compared}
use yerp.Memory.Text.{IsCStr, terminated}
use yerp.Prelude.{
  List, [], arith, false, if◌then◌else◌, leb, ltb, none, refl, some, true, ℕ, ◌&&◌, ◌<◌, ◌==◌, ◌∷◌,
  ◌≡◌, ◌≤◌, ◌⊎◌,
}
use yerp.Prelude.Int.{ℤ}
use yerp.Util.Str.{cspan, holds_byte, strcmp, strcspn, strlen, strncmp, strnlen, walk}
use yerp.Util.Str.Length.{strlen-length, strnlen-over_read}
use yerp.Util.Str.Order.{strcmp-Compared, strncmp-Compared}
use yerp.Util.Write.{strcat, strncpy}
use yerp.Util.Write.Bounded.{strncpy-one_past}
use yerp.Util.Write.Copy.{strcat-append}

-- The string "ab" at 10, the set "b" at 20, and room from 30 to 39.
abbrev words : Memory
words a =
    if a == 10
    then some 97
    else if a == 11
    then some 98
    else if a == 12
    then some 0
    else if a == 20
    then some 98
    else if a == 21
    then some 0
    else if leb 30 a && ltb a 40
    then some 0
    else none

abbrev ab : List ℕ
ab = 97 ∷ 98 ∷ []

abbrev only_b : List ℕ
only_b = 98 ∷ []

ab-IsCStr : IsCStr words 10 ab
ab-IsCStr = (refl, omega arith, omega arith, (refl, omega arith, omega arith, refl))

b-IsCStr : IsCStr words 20 only_b
b-IsCStr = (refl, omega arith, omega arith, refl)

room-IsMapped : (n : ℕ) → n ≤ 10 → IsMapped words 30 n
room-IsMapped n h a lo hi =
    let e1 : (a == 10) ≡ false = ground arith in
    let e2 : (a == 11) ≡ false = ground arith in
    let e3 : (a == 12) ≡ false = ground arith in
    let e4 : (a == 20) ≡ false = ground arith in
    let e5 : (a == 21) ≡ false = ground arith in
    let e6 : leb 30 a ≡ true = ground arith in
    let e7 : ltb a 40 ≡ true = ground arith in rw (e1, e2, e3, e4, e5, e6, e7, is_mapped)

strlen-length_example : strlen 5 words 10 ≡ done 2
strlen-length_example = strlen-length 5 words 10 ab ab-IsCStr (omega arith)

-- An array of two bytes with nothing behind it.
abbrev array : Memory
array a = if a == 10 then some 97 else if a == 11 then some 98 else none

strnlen-over_read_example : strnlen 5 array 10 2 ≡ fault
strnlen-over_read_example =
    strnlen-over_read 5 array 10 ab (refl, (refl, tt)) (omega arith, (omega arith, tt))
      (omega arith) refl

strcmp-Compared_example :
    (r : ℤ) × (strcmp 5 words 10 20 ≡ done r) × Compared (terminated ab) (terminated only_b) r
strcmp-Compared_example = strcmp-Compared 5 words 10 20 ab only_b ab-IsCStr b-IsCStr (omega arith)

strncpy-one_past_example :
    (m' : Memory) × (strncpy words 30 10 4 ≡ done (30, m'))
    × IsCStr m' 30 ab
    × ((a : Ptr) → 32 ≤ a → a ≤ 34 → m' a ≡ some 0)
    × ((a : Ptr) → (a < 30) ⊎ (34 < a) → m' a ≡ words a)
strncpy-one_past_example =
    strncpy-one_past words 30 10 4 ab ab-IsCStr (room-IsMapped 5 (omega arith)) (omega arith)
      (omega arith)

words_of_tests : (strlen 9 words 10 ≡ done 2) × (strcspn 9 words 10 20 ≡ done 1)
unfolding strlen walk strcspn cspan holds_byte load
words_of_tests = (refl, refl)

strncmp-Compared_example :
    (r : ℤ) × (strncmp words 10 20 1 ≡ done r) × Compared (97 ∷ []) (98 ∷ []) r
strncmp-Compared_example = strncmp-Compared words 10 20 1 ab only_b ab-IsCStr b-IsCStr

-- The string "b" at 30, with room behind it.
abbrev with_b : Memory
with_b a = if a == 30 then some 98 else words a

with_b-IsMapped : (n : ℕ) → n ≤ 9 → IsMapped with_b 31 n
with_b-IsMapped n h a lo hi =
    let behind : (a == 30) ≡ false = ground arith in
    rw (is_mapped, behind) (room-IsMapped 10 (omega arith) a (omega arith) (omega arith))

strcat-append_example :
    (m' : Memory) × (strcat 5 with_b 30 10 ≡ done (30, m'))
    × IsCStr m' 30 (98 ∷ ab)
    × ((a : Ptr) → (a < 31) ⊎ (34 ≤ a) → m' a ≡ with_b a)
strcat-append_example =
    strcat-append 5 with_b 30 10 only_b ab (refl, omega arith, omega arith, refl)
      (refl, omega arith, omega arith, (refl, omega arith, omega arith, refl))
      (with_b-IsMapped 3 (omega arith)) (omega arith) (omega arith) (omega arith)
