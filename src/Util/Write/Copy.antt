-- ===== src/Util/Write/Copy.antt =====
-- `strcpy` and `strcat`.
use yerp.Memory.{IsMapped, Memory, Ptr, done, load-eq, put, store-eq}
use yerp.Memory.Region.{IsMapped-put, IsMapped-suc, moved, moved_outside}
use yerp.Memory.Text.{IsCStr, IsCStr-append, IsCStr-frame, moved-IsCStr, nonzero}
use yerp.Prelude.{
  List, [], ap, arith, false, fun_ext, inl, length, suc, zero, ℕ, ◌++◌, ◌+◌, ◌<◌, ◌==◌, ◌∙◌, ◌∷◌,
  ◌≡◌, ◌≤◌, ◌⊎◌,
}
use yerp.Util.Block.Copy.{moved_forward}
use yerp.Util.Str.Length.{walk-end}
use yerp.Util.Write.{copy_text, strcat, strcpy}

-- The source is not the target of a forward copy before it is read.
abbrev pub Apart : Ptr → Ptr → ℕ → Type 0
Apart d s n = (d ≤ s) ⊎ (s + n ≤ d)

pub IsCStr-put_tail :
    (m : Memory) (d s b x : ℕ) (xs : List ℕ)
    → IsCStr m s (x ∷ xs)
    → Apart d s (suc (suc (length xs)))
    → IsCStr (put m d b) (s + 1) xs
IsCStr-put_tail m d s b x xs h apart =
    IsCStr-frame m (put m d b) (s + 1) xs h.3
      λ a lo hi. let ne : (a == d) ≡ false = ground arith in rw ne

copy_text-moved :
    (f : ℕ) (m : Memory) (d s : Ptr) (xs : List ℕ)
    → IsCStr m s xs
    → IsMapped m d (suc (length xs))
    → Apart d s (suc (length xs))
    → length xs < f
    → copy_text f m d s ≡ done (moved m d s (suc (length xs)))
unfolding copy_text
copy_text-moved zero m d s xs h hd apart fuel = absurd (omega arith)
copy_text-moved (suc f) m d s [] h hd apart fuel =
    rw (load-eq m s 0 h, store-eq m d 0 (hd d (omega arith) (omega arith)))
      (ap done (fun_ext λ a. ground arith))
copy_text-moved (suc f) m d s (x ∷ xs) h hd apart fuel =
    rw (load-eq m s x h.0, store-eq m d x (hd d (omega arith) (omega arith)), nonzero x h.1)
      (copy_text-moved f (put m d x) (d + 1) (s + 1) xs (IsCStr-put_tail m d s x x xs h apart)
          (IsMapped-put m (d + 1) d x (suc (length xs)) (IsMapped-suc m d (suc (length xs)) hd))
          (omega arith) (omega arith)
        ∙ ap done (fun_ext (moved_forward m d s x (suc (length xs)) h.0 apart)))

-- `strcpy` of a string that is shorter than the fuel, into room for it and its terminator that
-- does not begin inside it, returns the destination; the string then stands there, and no byte
-- outside the destination's `length xs + 1` changes.
pub strcpy-IsCStr :
    (f : ℕ) (m : Memory) (dest src : Ptr) (xs : List ℕ)
    → IsCStr m src xs
    → IsMapped m dest (suc (length xs))
    → Apart dest src (suc (length xs))
    → length xs < f
    → (m' : Memory) × (strcpy f m dest src ≡ done (dest, m'))
      × IsCStr m' dest xs
      × ((a : Ptr) → (a < dest) ⊎ (dest + suc (length xs) ≤ a) → m' a ≡ m a)
unfolding strcpy
strcpy-IsCStr f m dest src xs h hd apart fuel =
    let n = suc (length xs) in
    let es : src + 0 ≡ src = omega arith in
    let ed : dest + 0 ≡ dest = omega arith in
    (
      moved m dest src n,
      rw (copy_text-moved f m dest src xs h hd apart fuel),
      rw ed at (moved-IsCStr m dest src n 0 xs (rw es h) (omega arith)),
      moved_outside m dest src n,
    )

-- `strcat` of two strings that are shorter than the fuel, with room for the second and its
-- terminator behind the first that does not begin inside the second, returns the destination,
-- where the first string followed by the second then stands, and no byte in front of the old
-- terminator or behind the new one changes.
pub strcat-append :
    (f : ℕ) (m : Memory) (dest src : Ptr) (ys xs : List ℕ)
    → IsCStr m dest ys
    → IsCStr m src xs
    → IsMapped m (dest + length ys) (suc (length xs))
    → Apart (dest + length ys) src (suc (length xs))
    → length ys < f
    → length xs < f
    → (m' : Memory) × (strcat f m dest src ≡ done (dest, m'))
      × IsCStr m' dest (ys ++ xs)
      × ((a : Ptr) → (a < dest + length ys) ⊎ (dest + length ys + suc (length xs) ≤ a) → m' a ≡ m a)
unfolding strcat
strcat-append f m dest src ys xs hy hx hd apart fuel fuel' =
    let n = suc (length xs) in
    let e = dest + length ys in
    let es : src + 0 ≡ src = omega arith in
    let ed : e + 0 ≡ e = omega arith in
    let m' = moved m e src n in
    let copied : IsCStr m' e xs = rw ed at (moved-IsCStr m e src n 0 xs (rw es hx) (omega arith)) in
    (
      m',
      rw (walk-end f m dest ys hy fuel, copy_text-moved f m e src xs hx hd apart fuel'),
      IsCStr-append m m' dest ys xs hy copied (λ a lo hi. moved_outside m e src n a (inl hi)),
      moved_outside m e src n,
    )
