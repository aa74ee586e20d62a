-- ===== src/Util/Write/Bounded.antt =====
-- `strncpy` and `strncat`.
use yerp.Memory.{IsMapped, Memory, Ptr, done, load-eq, put, store-eq}
use yerp.Memory.Region.{
  IsMapped-put, IsMapped-suc, filled, filled_inside, filled_outside, is_mapped-moved, moved,
  moved_outside,
}
use yerp.Memory.Text.{
  Holds, Holds-frame, IsCStr, IsCStr-IsMapped, IsCStr-end, IsCStr-frame, moved-IsCStr, nonzero,
}
use yerp.Prelude.{
  All, Bool-cases, List, [], ap, arith, false, fun_ext, inl, inr, length, some, suc, zero, ℕ, ◌+◌,
  ◌-◌, ◌<◌, ◌==◌, ◌∙◌, ◌∷◌, ◌≡◌, ◌≤◌, ◌⊎◌,
}
use yerp.Prelude.Int.{pos}
use yerp.Util.Block.{fill}
use yerp.Util.Block.Copy.{moved_forward}
use yerp.Util.Block.Fill.{fill-filled}
use yerp.Util.Write.{copy_max, strncpy}
use yerp.Util.Write.Copy.{Apart, IsCStr-put_tail}

-- A string that is shorter than the bound: the count is short of one decrement at the end.
copy_max-short :
    (n : ℕ) (m : Memory) (d s : Ptr) (xs : List ℕ)
    → IsCStr m s xs
    → IsMapped m d (suc (length xs))
    → Apart d s (suc (length xs))
    → length xs < n
    → copy_max n m d s ≡ done (d + suc (length xs), n - length xs, moved m d s (suc (length xs)))
unfolding copy_max
copy_max-short zero m d s xs h hd apart small = absurd (omega arith)
copy_max-short (suc n) m d s [] h hd apart small =
    let whole : suc n - 0 ≡ suc n = omega arith in
    rw (whole, load-eq m s 0 h, store-eq m d 0 (hd d (omega arith) (omega arith)))
      (ap (λ (t : Memory). done (d + 1, suc n, t)) (fun_ext λ a. ground arith))
copy_max-short (suc n) m d s (x ∷ xs) h hd apart small =
    let at : d + 1 + suc (length xs) ≡ d + suc (suc (length xs)) = omega arith in
    let left : suc n - suc (length xs) ≡ n - length xs = omega arith in
    rw
      (
        load-eq m s x h.0,
        store-eq m d x (hd d (omega arith) (omega arith)),
        nonzero x h.1,
        left,
        ← at,
      )
      (copy_max-short n (put m d x) (d + 1) (s + 1) xs (IsCStr-put_tail m d s x x xs h apart)
          (IsMapped-put m (d + 1) d x (suc (length xs)) (IsMapped-suc m d (suc (length xs)) hd))
          (omega arith) (omega arith)
        ∙ ap (λ (t : Memory). done (d + 1 + suc (length xs), n - length xs, t))
            (fun_ext (moved_forward m d s x (suc (length xs)) h.0 apart)))

copy_max-long :
    (n : ℕ) (m : Memory) (d s : Ptr) (xs : List ℕ)
    → Holds m s xs
    → All (λ x. 0 < x) xs
    → IsMapped m d n
    → Apart d s n
    → length xs ≡ n
    → copy_max n m d s ≡ done (d + n, 0, moved m d s n)
unfolding copy_max
copy_max-long zero m d s xs h nz hd apart e =
    let at : d + 0 ≡ d = omega arith in
    rw at (ap (λ (t : Memory). done (d, 0, t)) (fun_ext λ a. ground arith))
copy_max-long (suc n) m d s [] h nz hd apart e = absurd (omega arith)
copy_max-long (suc n) m d s (x ∷ xs) h nz hd apart e =
    let at : d + 1 + n ≡ d + suc n = omega arith in
    let kept : Holds (put m d x) (s + 1) xs =
      Holds-frame m (put m d x) (s + 1) xs h.1
        (λ a lo hi. let ne : (a == d) ≡ false = ground arith in rw ne) in
    rw (load-eq m s x h.0, store-eq m d x (hd d (omega arith) (omega arith)), nonzero x nz.0, ← at)
      (copy_max-long n (put m d x) (d + 1) (s + 1) xs kept nz.1
          (IsMapped-put m (d + 1) d x n (IsMapped-suc m d n hd)) (omega arith) (omega arith)
        ∙ ap (λ (t : Memory). done (d + 1 + n, 0, t)) (fun_ext (moved_forward m d s x n h.0 apart)))

-- `strncpy` with a bound `n` of a source that begins with `n` nonzero bytes, into `n` mapped
-- bytes that do not begin inside these, returns the destination and leaves there the first `n`
-- bytes of the source, with no terminator, and every other byte as it was.
pub strncpy-long :
    (m : Memory) (dest src : Ptr) (n : ℕ) (xs : List ℕ)
    → Holds m src xs
    → All (λ x. 0 < x) xs
    → IsMapped m dest n
    → Apart dest src n
    → length xs ≡ n
    → strncpy m dest src n ≡ done (dest, moved m dest src n)
unfolding strncpy fill
strncpy-long m dest src n xs h nz hd apart e = rw (copy_max-long n m dest src xs h nz hd apart e)

-- `strncpy` of a string that is shorter than the bound `n`, into `n + 1` mapped bytes that do not
-- begin inside the source, copies the string and its terminator and then pads with zeros up to
-- the byte `dest + n` inclusive, one byte behind the `n` bytes it was given.
pub strncpy-one_past :
    (m : Memory) (dest src : Ptr) (n : ℕ) (xs : List ℕ)
    → IsCStr m src xs
    → IsMapped m dest (suc n)
    → Apart dest src (suc (length xs))
    → length xs < n
    → (m' : Memory) × (strncpy m dest src n ≡ done (dest, m'))
      × IsCStr m' dest xs
      × ((a : Ptr) → dest + length xs ≤ a → a ≤ dest + n → m' a ≡ some 0)
      × ((a : Ptr) → (a < dest) ⊎ (dest + n < a) → m' a ≡ m a)
unfolding strncpy
strncpy-one_past m dest src n xs h hd apart small =
    let k = length xs in
    let copied = moved m dest src (suc k) in
    let m' = filled copied (dest + suc k) 0 (n - k) in
    let room : IsMapped m dest (suc k) = λ a lo hi. hd a lo (omega arith) in
    let source : IsMapped m src (suc k) = IsCStr-IsMapped m src xs h in
    let rest : IsMapped copied (dest + suc k) (n - k) =
      λ a lo hi. is_mapped-moved m dest src (suc k) a source (hd a (omega arith) (omega arith)) in
    let es : src + 0 ≡ src = omega arith in
    let ed : dest + 0 ≡ dest = omega arith in
    let text : IsCStr copied dest xs =
      rw ed at (moved-IsCStr m dest src (suc k) 0 xs (rw es h) (omega arith)) in
    let text' : IsCStr m' dest xs =
      IsCStr-frame copied m' dest xs text
        (λ a lo hi. filled_outside copied (dest + suc k) 0 (n - k) a (omega arith)) in
    (
      m',
      rw (
        copy_max-short n m dest src xs h room apart small,
        fill-filled (n - k) copied (dest + suc k) (pos 0) rest,
      ),
      text',
      (λ a lo hi. elim (Bool-cases (a == dest + k)) [
        | inl e ↦ let e' : a ≡ dest + k = ground arith in rw e' (IsCStr-end m' dest xs text')
        | inr e ↦ filled_inside copied (dest + suc k) 0 (n - k) a (ground arith) (omega arith)
      ]),
      (λ a out.
          filled_outside copied (dest + suc k) 0 (n - k) a (omega arith)
          ∙ moved_outside m dest src (suc k) a (omega arith)),
    )
