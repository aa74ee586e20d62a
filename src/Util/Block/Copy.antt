-- ===== src/Util/Block/Copy.antt =====
-- `memcpy` and `memmove` against one description: all bytes read before any is written.
use yerp.Memory.{IsMapped, Memory, Ptr, done, is_mapped, load-eq, mapped_byte, put, store-eq}
use yerp.Memory.Region.{IsMapped-init, IsMapped-put, IsMapped-suc, moved}
use yerp.Prelude.{
  Bool-cases, ap, arith, fun_ext, inl, inr, ltb, some, suc, true, zero, ℕ, ◌+◌, ◌-◌, ◌∙◌, ◌≡◌, ◌≤◌,
  ◌⊎◌,
}
use yerp.Util.Block.{copy_backward, copy_forward, memcpy, memmove}

-- In one round of a forward copy the byte at `s` goes to `d`.
pub moved_forward :
    (m : Memory) (d s b n : ℕ)
    → m s ≡ some b
    → (d ≤ s) ⊎ (s + suc n ≤ d)
    → (a : ℕ) → moved (put m d b) (d + 1) (s + 1) n a ≡ moved m d s (suc n) a
moved_forward m d s b n e apart a = ground arith

moved_backward :
    (m : Memory) (d s b n : ℕ)
    → m (s + n) ≡ some b
    → s ≤ d
    → (a : ℕ) → moved (put m (d + n) b) d s n a ≡ moved m d s (suc n) a
moved_backward m d s b n e le a = ground arith

pub copy_forward-moved :
    (n : ℕ) (m : Memory) (d s : Ptr)
    → IsMapped m s n
    → IsMapped m d n
    → (d ≤ s) ⊎ (s + n ≤ d)
    → copy_forward n m d s ≡ done (moved m d s n)
unfolding copy_forward
copy_forward-moved zero m d s hs hd apart = ap done (fun_ext λ a. ground arith)
copy_forward-moved (suc n) m d s hs hd apart =
    let (b, e) = mapped_byte m s (hs s (omega arith) (omega arith)) in
    rw (load-eq m s b e, store-eq m d b (hd d (omega arith) (omega arith)))
      (copy_forward-moved n (put m d b) (d + 1) (s + 1)
          (IsMapped-put m (s + 1) d b n (IsMapped-suc m s n hs))
          (IsMapped-put m (d + 1) d b n (IsMapped-suc m d n hd)) (omega arith)
        ∙ ap done (fun_ext (moved_forward m d s b n e apart)))

copy_backward-suc :
    (n : ℕ) (m : Memory) (d s : Ptr) (b : ℕ)
    → m (s + n) ≡ some b
    → is_mapped m (d + n) ≡ true
    → copy_backward (suc n) m (d + suc n) (s + suc n)
      ≡ copy_backward n (put m (d + n) b) (d + n) (s + n)
unfolding copy_backward
copy_backward-suc n m d s b e mapped =
    let es : s + suc n - 1 ≡ s + n = omega arith in
    let ed : d + suc n - 1 ≡ d + n = omega arith in
    rw (es, ed, load-eq m (s + n) b e, store-eq m (d + n) b mapped)

pub copy_backward-moved :
    (n : ℕ) (m : Memory) (d s : Ptr)
    → IsMapped m s n
    → IsMapped m d n
    → s ≤ d
    → copy_backward n m (d + n) (s + n) ≡ done (moved m d s n)
copy_backward-moved zero m d s hs hd le =
    unfold copy_backward in ap done (fun_ext λ a. ground arith)
copy_backward-moved (suc n) m d s hs hd le =
    let (b, e) = mapped_byte m (s + n) (hs (s + n) (omega arith) (omega arith)) in
    rw (copy_backward-suc n m d s b e (hd (d + n) (omega arith) (omega arith))) (
      copy_backward-moved n (put m (d + n) b) d s
        (IsMapped-put m s (d + n) b n (IsMapped-init m s n hs))
        (IsMapped-put m d (d + n) b n (IsMapped-init m d n hd)) le
      ∙ ap done (fun_ext (moved_backward m d s b n e le)))

-- `memcpy` of `n` mapped bytes between blocks that do not overlap returns the destination, and
-- leaves there the bytes of the source and every other byte as it was.
pub memcpy-moved :
    (m : Memory) (dest src : Ptr) (n : ℕ)
    → IsMapped m src n
    → IsMapped m dest n
    → (dest + n ≤ src) ⊎ (src + n ≤ dest)
    → memcpy m dest src n ≡ done (dest, moved m dest src n)
unfolding memcpy
memcpy-moved m dest src n hs hd apart = rw (copy_forward-moved n m dest src hs hd (omega arith))

-- `memmove` of `n` mapped bytes returns the destination, and leaves there the bytes that the
-- source held before the call and every other byte as it was, however the two blocks overlap.
pub memmove-moved :
    (m : Memory) (dest src : Ptr) (n : ℕ)
    → IsMapped m src n
    → IsMapped m dest n
    → memmove m dest src n ≡ done (dest, moved m dest src n)
unfolding memmove
memmove-moved m dest src n hs hd = elim (Bool-cases (ltb dest src)) [
  | inl below ↦ rw (below, copy_forward-moved n m dest src hs hd (ground arith))
  | inr above ↦ rw (above, copy_backward-moved n m dest src hs hd (ground arith))
]
