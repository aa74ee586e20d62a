-- ===== src/Util/Write/Append.antt =====
-- `strncat`.
use yerp.Memory.{IsMapped, Memory, Ptr, done, is_mapped, load-eq, put, store-eq}
use yerp.Memory.Region.{IsMapped-put, IsMapped-suc, is_mapped-moved, moved, moved_outside}
use yerp.Memory.Text.{
  Holds, Holds-IsMapped, Holds-frame, IsCStr, IsCStr-append, IsCStr-of_Holds, moved-Holds,
  moved-IsCStr, nonzero, nonzero_bytes,
}
use yerp.Prelude.{
  All, List, [], ap, arith, false, fun_ext, inl, length, some, suc, true, zero, ℕ, ◌++◌, ◌+◌, ◌-◌,
  ◌<◌, ◌==◌, ◌∙◌, ◌∷◌, ◌≡◌, ◌≤◌, ◌⊎◌,
}
use yerp.Util.Block.Copy.{moved_forward}
use yerp.Util.Str.{size_max}
use yerp.Util.Str.Length.{walk-end}
use yerp.Util.Write.{append_max, strncat}
use yerp.Util.Write.Copy.{Apart, IsCStr-put_tail}

-- `strncat`: the bytes appended when the source is shorter than the bound, and when it is not.
append_max-short :
    (n : ℕ) (m : Memory) (d s : Ptr) (xs : List ℕ)
    → IsCStr m s xs
    → IsMapped m d (suc (length xs))
    → Apart d s (suc (length xs))
    → length xs < n
    → append_max n m d s
      ≡ done (d + suc (length xs), n - suc (length xs), moved m d s (suc (length xs)))
unfolding append_max
append_max-short zero m d s xs h hd apart small = absurd (omega arith)
append_max-short (suc n) m d s [] h hd apart small =
    let left : suc n - 1 ≡ n = omega arith in
    rw (left, load-eq m s 0 h, store-eq m d 0 (hd d (omega arith) (omega arith)))
      (ap (λ (t : Memory). done (d + 1, n, t)) (fun_ext λ a. ground arith))
append_max-short (suc n) m d s (x ∷ xs) h hd apart small =
    let at : d + 1 + suc (length xs) ≡ d + suc (suc (length xs)) = omega arith in
    let left : suc n - suc (suc (length xs)) ≡ n - suc (length xs) = omega arith in
    rw
      (
        load-eq m s x h.0,
        store-eq m d x (hd d (omega arith) (omega arith)),
        nonzero x h.1,
        left,
        ← at,
      )
      (append_max-short n (put m d x) (d + 1) (s + 1) xs (IsCStr-put_tail m d s x x xs h apart)
          (IsMapped-put m (d + 1) d x (suc (length xs)) (IsMapped-suc m d (suc (length xs)) hd))
          (omega arith) (omega arith)
        ∙ ap (λ (t : Memory). done (d + 1 + suc (length xs), n - suc (length xs), t))
            (fun_ext (moved_forward m d s x (suc (length xs)) h.0 apart)))

append_max-long :
    (n : ℕ) (m : Memory) (d s : Ptr) (xs : List ℕ)
    → Holds m s xs
    → All (λ x. 0 < x) xs
    → IsMapped m d n
    → Apart d s n
    → length xs ≡ n
    → append_max n m d s ≡ done (d + n, size_max, moved m d s n)
unfolding append_max
append_max-long zero m d s xs h nz hd apart e =
    let at : d + 0 ≡ d = omega arith in
    rw at (ap (λ (t : Memory). done (d, size_max, t)) (fun_ext λ a. ground arith))
append_max-long (suc n) m d s [] h nz hd apart e = absurd (omega arith)
append_max-long (suc n) m d s (x ∷ xs) h nz hd apart e =
    let at : d + 1 + n ≡ d + suc n = omega arith in
    let kept : Holds (put m d x) (s + 1) xs =
      Holds-frame m (put m d x) (s + 1) xs h.1
        (λ a lo hi. let ne : (a == d) ≡ false = ground arith in rw ne) in
    rw (load-eq m s x h.0, store-eq m d x (hd d (omega arith) (omega arith)), nonzero x nz.0, ← at)
      (append_max-long n (put m d x) (d + 1) (s + 1) xs kept nz.1
          (IsMapped-put m (d + 1) d x n (IsMapped-suc m d n hd)) (omega arith) (omega arith)
        ∙ ap (λ (t : Memory). done (d + 1 + n, size_max, t))
            (fun_ext (moved_forward m d s x n h.0 apart)))

-- `strncat` of a string that is shorter than the bound `n`, with room for it and its terminator
-- behind the destination's string that does not begin inside it, appends the whole string and
-- changes no byte in front of the old terminator or behind the new one.
pub strncat-short :
    (f : ℕ) (m : Memory) (dest src : Ptr) (n : ℕ) (ys xs : List ℕ)
    → IsCStr m dest ys
    → IsCStr m src xs
    → IsMapped m (dest + length ys) (suc (length xs))
    → Apart (dest + length ys) src (suc (length xs))
    → length ys < f
    → length xs < n
    → n ≤ size_max
    → (m' : Memory) × (strncat f m dest src n ≡ done (dest, m'))
      × IsCStr m' dest (ys ++ xs)
      × ((a : Ptr) → (a < dest + length ys) ⊎ (dest + length ys + suc (length xs) ≤ a) → m' a ≡ m a)
unfolding strncat
strncat-short f m dest src n ys xs hy hx hd apart fuel small word =
    let k = suc (length xs) in
    let e = dest + length ys in
    let es : src + 0 ≡ src = omega arith in
    let ed : e + 0 ≡ e = omega arith in
    let m' = moved m e src k in
    let copied : IsCStr m' e xs = rw ed at (moved-IsCStr m e src k 0 xs (rw es hx) (omega arith)) in
    let not_used_up : (n - k == size_max) ≡ false = ground arith in
    (
      m',
      rw (
        walk-end f m dest ys hy fuel,
        append_max-short n m e src xs hx hd apart small,
        not_used_up,
      ),
      IsCStr-append m m' dest ys xs hy copied (λ a lo hi. moved_outside m e src k a (inl hi)),
      moved_outside m e src k,
    )

-- `strncat` with a bound `n` of a source that begins with `n` nonzero bytes, with room for these
-- and a terminator behind the destination's string that does not begin inside them, appends the
-- `n` bytes and a terminator, and changes no byte in front of the old terminator or behind the
-- new one.
pub strncat-long :
    (f : ℕ) (m : Memory) (dest src : Ptr) (n : ℕ) (ys xs : List ℕ)
    → IsCStr m dest ys
    → Holds m src xs
    → All (λ x. (0 < x) × (x < 256)) xs
    → IsMapped m (dest + length ys) (suc n)
    → Apart (dest + length ys) src n
    → length ys < f
    → length xs ≡ n
    → (m' : Memory) × (strncat f m dest src n ≡ done (dest, m'))
      × IsCStr m' dest (ys ++ xs)
      × ((a : Ptr) → (a < dest + length ys) ⊎ (dest + length ys + suc n ≤ a) → m' a ≡ m a)
unfolding strncat
strncat-long f m dest src n ys xs hy hx chars hd apart fuel e =
    let at = dest + length ys in
    let copied = moved m at src n in
    let m' = put copied (at + n) 0 in
    let source : IsMapped m src n = Holds-IsMapped m src n xs hx e in
    let es : src + 0 ≡ src = omega arith in
    let ed : at + 0 ≡ at = omega arith in
    let text : Holds copied at xs =
      rw ed at (moved-Holds m at src n 0 xs (rw es hx) (omega arith)) in
    let text' : Holds m' at xs =
      Holds-frame copied m' at xs text
        (λ a lo hi. let ne : (a == at + n) ≡ false = ground arith in rw ne) in
    let end : m' (at + length xs) ≡ some 0 =
      let hit : (at + length xs == at + n) ≡ true = ground arith in rw hit in
    let room : is_mapped copied (at + n) ≡ true =
      is_mapped-moved m at src n (at + n) source (hd (at + n) (omega arith) (omega arith)) in
    (
      m',
      rw (
        walk-end f m dest ys hy fuel,
        append_max-long n m at src xs hx (nonzero_bytes xs chars) (λ a lo hi. hd a lo (omega arith))
            apart e,
        store-eq copied (at + n) 0 room,
      ),
      IsCStr-append m m' dest ys xs hy (IsCStr-of_Holds m' at xs text' chars end) (λ a lo hi.
          let ne : (a == at + n) ≡ false = ground arith in
          rw ne (moved_outside m at src n a (inl hi))),
      (λ a out.
          let ne : (a == at + n) ≡ false = ground arith in
          rw ne (moved_outside m at src n a (omega arith))),
    )
