-- ===== src/Util/Token/Split.antt =====
-- `strtok` splits a string at the bytes of a set.
use mathlib.Core.List.{head-eq_of_cons-eq, tail-eq_of_cons-eq}
use mathlib.Core.Path.{subst}
use yerp.Memory.{Memory, Ptr, done, is_mapped, load-eq, nullptr, put, store, store-eq}
use yerp.Memory.Search.{First, absent, found}
use yerp.Memory.Text.{IsCStr, IsCStr-frame, IsCStr-suffix, nonzero}
use yerp.Prelude.{
  All, Bool, List, [], ap, arith, false, length, length-append, not, refl, suc, sym, true, ℕ, ◌++◌,
  ◌+◌, ◌<◌, ◌==◌, ◌∙◌, ◌∷◌, ◌≡◌, ◌≢◌,
}
use yerp.Util.Str.{strpbrk, strspn}
use yerp.Util.Str.Sets.{member, strpbrk-First, strspn-strcspn}
use yerp.Util.Token.{strtok}

abbrev AllFail : (ℕ → Bool) → List ℕ → Type 0
AllFail test xs = All (λ x. test x ≡ false) xs

split_unique :
    (test : ℕ → Bool) (xs ys zs ws : List ℕ) (b c : ℕ)
    → AllFail test xs
    → test b ≡ true
    → AllFail test zs
    → test c ≡ true
    → xs ++ b ∷ ys ≡ zs ++ c ∷ ws
    → length xs ≡ length zs
split_unique test [] ys [] ws b c fx hb fz hc e = refl
split_unique test [] ys (z ∷ zs) ws b c fx hb fz hc e =
    let clash : test b ≡ false = ap test (head-eq_of_cons-eq e) ∙ fz.0 in absurd (ground arith)
split_unique test (x ∷ xs) ys [] ws b c fx hb fz hc e =
    let clash : test c ≡ false = ap test (sym (head-eq_of_cons-eq e)) ∙ fx.0 in
    absurd (ground arith)
split_unique test (x ∷ xs) ys (z ∷ zs) ws b c fx hb fz hc e =
    ap suc (split_unique test xs ys zs ws b c fx.1 hb fz.1 hc (tail-eq_of_cons-eq e))

AllFail-hit :
    (test : ℕ → Bool) (xs ys : List ℕ) (b : ℕ)
    → test b ≡ true
    → AllFail test (xs ++ b ∷ ys)
    → test b ≡ false
AllFail-hit test [] ys b hit h = h.0
AllFail-hit test (x ∷ xs) ys b hit h = AllFail-hit test xs ys b hit h.1

-- Where a search ends in a list that is given by what stands before and behind the hit.
First-split :
    (test : ℕ → Bool) (base missing : Ptr) (xs ys : List ℕ) (b r : ℕ)
    → AllFail test xs
    → test b ≡ true
    → First test base missing (xs ++ b ∷ ys) r
    → r ≡ base + length xs
First-split test base missing xs ys b r fail hit (found before c behind e all hit' at) =
    let len = split_unique test xs ys before behind b c fail hit all hit' e in omega arith
First-split test base missing xs ys b r fail hit (absent all at) =
    let clash = AllFail-hit test xs ys b hit all in absurd (ground arith)

First-none :
    (test : ℕ → Bool) (base missing : Ptr) (xs : List ℕ) (r : Ptr)
    → AllFail test xs
    → First test base missing xs r
    → r ≡ missing
First-none test base missing xs r fail (found before c behind e all hit at) =
    let fail' : AllFail test (before ++ c ∷ behind) = subst (AllFail test) e fail in
    let clash = AllFail-hit test before behind c hit fail' in absurd (ground arith)
First-none test base missing xs r fail (absent all at) = at

-- Every byte of the list is in the set, and none is.
abbrev pub Within : List ℕ → List ℕ → Type 0
Within ds xs = All (λ x. member ds x ≡ true) xs

abbrev pub Outside : List ℕ → List ℕ → Type 0
Outside ds xs = All (λ x. member ds x ≡ false) xs

Within-not : (ds xs : List ℕ) → Within ds xs → AllFail (λ x. not (member ds x)) xs
Within-not ds [] h = tt
Within-not ds (x ∷ xs) h = (rw (h.0), Within-not ds xs h.1)

-- A string that is cut off at `e`.
cut_string :
    (m : Memory) (p e : Ptr) (xs ys : List ℕ)
    → e ≡ p + length xs
    → IsCStr m p (xs ++ ys)
    → IsCStr (put m e 0) p xs
cut_string m p e [] ys at h = let hit : (p == e) ≡ true = ground arith in rw hit
cut_string m p e (x ∷ xs) ys at h =
    let ne : (p == e) ≡ false = ground arith in
    (rw ne (h.0), h.1, h.2, cut_string m (p + 1) e xs ys (omega arith) h.3)

module _ (f : ℕ) (m : Memory) (last str delim : Ptr) (ds skipped : List ℕ) (t : ℕ) (token : List ℕ)
    (some_string : 0 < str) (hd : IsCStr m delim ds) (hs : Within ds skipped)
    (ht : Outside ds (t ∷ token)) where
  strspn-skipped :
      (tail : List ℕ)
      → IsCStr m str (skipped ++ (t ∷ tail))
      → length (skipped ++ (t ∷ tail)) + length ds < f
      → strspn f m str delim ≡ done (length skipped)
  strspn-skipped tail h fuel =
      let (i, _, run, _, first, _) =
        strspn-strcspn m delim ds hd f str (skipped ++ (t ∷ tail)) h fuel in
      let miss : not (member ds t) ≡ true = rw (ht.0) in
      let at =
        First-split (λ x. not (member ds x)) 0 _ skipped tail t i (Within-not ds skipped hs) miss
          first in
      let at' : i ≡ length skipped = omega arith in run ∙ ap done at'

  -- `strtok` of a string `str` that is not null, or of `last` with a null string, skips the bytes
  -- of the set, returns the token that follows up to the next byte of the set, puts a zero in
  -- place of this byte and keeps the address behind it in `last`: the token is then a string of
  -- its own at the address returned, and what is behind it a string at `last`. No other byte is
  -- changed. The fuel is for more rounds than the string and the set have characters.
  pub strtok-token :
      (d : ℕ) (rest : List ℕ)
      → member ds d ≡ true
      → IsCStr m str (skipped ++ (t ∷ token ++ d ∷ rest))
      → length (skipped ++ (t ∷ token ++ d ∷ rest)) + length ds < f
      → (m' : Memory) × (last' : Ptr) × (strtok f m last str delim
          ≡ done (str + length skipped, last', m'))
        × (strtok f m str nullptr delim ≡ done (str + length skipped, last', m'))
        × (last' ≡ str + length skipped + length (t ∷ token) + 1)
        × IsCStr m' (str + length skipped) (t ∷ token)
        × IsCStr m' last' rest
        × ((a : Ptr) → suc a ≢ last' → m' a ≡ m a)
  unfolding strtok
  strtok-token d rest hit h fuel =
      let s = str + length skipped in
      let e = s + length (t ∷ token) in
      let tail = IsCStr-suffix m str skipped (t ∷ token ++ d ∷ rest) h in
      let behind = IsCStr-suffix m s (t ∷ token) (d ∷ rest) tail in
      let fewer = length-append skipped (t ∷ token ++ d ∷ rest) in
      let (r, run, first) =
        strpbrk-First m delim ds hd f s (t ∷ token ++ d ∷ rest) tail (omega (arith, fewer, fuel)) in
      let at : r ≡ e = First-split (member ds) s nullptr (t ∷ token) rest d r ht hit first in
      let run' : strpbrk f m s delim ≡ done e = run ∙ ap done at in
      let not_null : (str == nullptr) ≡ false = ground arith in
      let found_one : (e == nullptr) ≡ false = ground arith in
      let spanned = strspn-skipped (token ++ d ∷ rest) h fuel in
      let stored : store m e 0 ≡ done (put m e 0) = store-eq m e 0 (rw (is_mapped, behind.0)) in
      (
        put m e 0,
        e + 1,
        rw (
          not_null,
          not_null,
          spanned,
          load-eq m s t tail.0,
          nonzero t tail.1,
          run',
          found_one,
          stored,
        ),
        rw (not_null, spanned, load-eq m s t tail.0, nonzero t tail.1, run', found_one, stored),
        refl,
        cut_string m s e (t ∷ token) (d ∷ rest) refl tail,
        IsCStr-frame m (put m e 0) (e + 1) rest behind.3
            (λ a lo hi. let ne : (a == e) ≡ false = ground arith in rw ne),
        (λ a other. let ne : (a == e) ≡ false = ground arith in rw ne),
      )

  -- `strtok` of a string with no byte of the set behind the token returns the token where it
  -- stands, leaves the memory as it is and sets `last` to a null pointer, from which the next call
  -- with a null string returns a null pointer.
  pub strtok-last :
      IsCStr m str (skipped ++ (t ∷ token))
      → length (skipped ++ (t ∷ token)) + length ds < f
      → (strtok f m last str delim ≡ done (str + length skipped, nullptr, m))
        × (strtok f m nullptr nullptr delim ≡ done (nullptr, nullptr, m))
  unfolding strtok
  strtok-last h fuel =
      let s = str + length skipped in
      let tail = IsCStr-suffix m str skipped (t ∷ token) h in
      let fewer = length-append skipped (t ∷ token) in
      let (r, run, first) =
        strpbrk-First m delim ds hd f s (t ∷ token) tail (omega (arith, fewer, fuel)) in
      let at : r ≡ nullptr = First-none (member ds) s nullptr (t ∷ token) r ht first in
      let run' : strpbrk f m s delim ≡ done nullptr = run ∙ ap done at in
      let not_null : (str == nullptr) ≡ false = ground arith in
      let spanned = strspn-skipped token h fuel in
      (rw (not_null, not_null, spanned, load-eq m s t tail.0, nonzero t tail.1, run'), refl)
