-- ===== src/Util/Block/Fill.antt =====
-- `memset`.
use yerp.Memory.{IsMapped, Memory, Ptr, done, put, store-eq}
use yerp.Memory.Region.{IsMapped-put, IsMapped-suc, filled, filled-suc}
use yerp.Prelude.{ap, arith, fun_ext, suc, zero, ℕ, ◌+◌, ◌∙◌, ◌≡◌}
use yerp.Prelude.Int.{to_uchar, ℤ}
use yerp.Util.Block.{fill, memset}

pub fill-filled :
    (n : ℕ) (m : Memory) (p : Ptr) (c : ℤ)
    → IsMapped m p n
    → fill n m p c ≡ done (filled m p (to_uchar c) n)
unfolding fill
fill-filled zero m p c h = ap done (fun_ext λ a. ground arith)
fill-filled (suc n) m p c h = rw (store-eq m p (to_uchar c) (h p (omega arith) (omega arith))) (
    fill-filled n (put m p (to_uchar c)) (p + 1) c
      (IsMapped-put m (p + 1) p (to_uchar c) n (IsMapped-suc m p n h))
    ∙ ap done (fun_ext (filled-suc m p (to_uchar c) n)))

-- `memset` of `n` mapped bytes returns the block, and leaves there `n` times `c` converted to an
-- `unsigned char` and every other byte as it was.
pub memset-filled :
    (m : Memory) (s : Ptr) (c : ℤ) (n : ℕ)
    → IsMapped m s n
    → memset m s c n ≡ done (s, filled m s (to_uchar c) n)
unfolding memset
memset-filled m s c n h = rw (fill-filled n m s c h)
