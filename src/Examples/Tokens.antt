-- ===== src/Examples/Tokens.antt =====
-- `strstr` and `strtok` at single inputs.
use yerp.Memory.{Memory, Ptr, done, load, nullptr}
use yerp.Memory.Text.{IsCStr}
use yerp.Prelude.{
  [], arith, false, get_elem?, if◌then◌else◌, leb, none, refl, suc, true, ◌-◌, ◌∷◌, ◌≡◌, ◌≢◌,
}
use yerp.Util.Str.Sets.{member}
use yerp.Util.Substring.{match_end, strstr, strstr_loop}
use yerp.Util.Substring.First.{Occurs, strstr-Occurs}
use yerp.Util.Token.{strtok}
use yerp.Util.Token.Split.{strtok-token}

-- The string ",ab;c" at 10, the set ";," at 20 and the needle "b;" at 30.
abbrev split_memory : Memory
split_memory a =
    if leb 30 a
    then get_elem? (98 ∷ 59 ∷ 0 ∷ []) (a - 30)
    else (if leb 20 a
        then get_elem? (59 ∷ 44 ∷ 0 ∷ []) (a - 20)
        else (if leb 10 a then get_elem? (44 ∷ 97 ∷ 98 ∷ 59 ∷ 99 ∷ 0 ∷ []) (a - 10) else none))

split_text : IsCStr split_memory 10 (44 ∷ 97 ∷ 98 ∷ 59 ∷ 99 ∷ [])
split_text = (
  refl,
  omega arith,
  omega arith,
  (
    refl,
    omega arith,
    omega arith,
    (
      refl,
      omega arith,
      omega arith,
      (refl, omega arith, omega arith, (refl, omega arith, omega arith, refl)),
    ),
  ),
)

split_set : IsCStr split_memory 20 (59 ∷ 44 ∷ [])
split_set = (refl, omega arith, omega arith, (refl, omega arith, omega arith, refl))

needle_text : IsCStr split_memory 30 (98 ∷ 59 ∷ [])
needle_text = (refl, omega arith, omega arith, (refl, omega arith, omega arith, refl))

strstr-Occurs_example :
    (r : Ptr) × (strstr 6 split_memory 10 30 ≡ done r)
    × Occurs (98 ∷ 59 ∷ []) 10 (44 ∷ 97 ∷ 98 ∷ 59 ∷ 99 ∷ []) r
strstr-Occurs_example =
    strstr-Occurs 6 split_memory 10 30 (44 ∷ 97 ∷ 98 ∷ 59 ∷ 99 ∷ []) (98 ∷ 59 ∷ []) split_text
      needle_text (omega arith)

strstr_run : strstr 6 split_memory 10 30 ≡ done 12
unfolding strstr strstr_loop match_end load
strstr_run = refl

members :
    (member (59 ∷ 44 ∷ []) 44 ≡ true)
    × (member (59 ∷ 44 ∷ []) 59 ≡ true)
    × (member (59 ∷ 44 ∷ []) 97 ≡ false)
    × (member (59 ∷ 44 ∷ []) 98 ≡ false)
unfolding member
members = (refl, refl, refl, refl)

strtok-token_example :
    (m' : Memory) × (last' : Ptr) × (strtok 9 split_memory 0 10 20 ≡ done (11, last', m'))
    × (strtok 9 split_memory 10 nullptr 20 ≡ done (11, last', m'))
    × (last' ≡ 14)
    × IsCStr m' 11 (97 ∷ 98 ∷ [])
    × IsCStr m' last' (99 ∷ [])
    × ((a : Ptr) → suc a ≢ last' → m' a ≡ split_memory a)
strtok-token_example =
    strtok-token 9 split_memory 0 10 20 (59 ∷ 44 ∷ []) (44 ∷ []) 97 (98 ∷ []) (omega arith)
      split_set (members.0, tt) (members.2, (members.3, tt)) 59 (99 ∷ []) members.1 split_text
      (omega arith)
