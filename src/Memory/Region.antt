-- ===== src/Memory/Region.antt =====
-- Blocks of bytes: the memory after a copy and after a fill.
use yerp.Memory.{IsMapped, Memory, Ptr, is_mapped, put}
use yerp.Prelude.{
  Bool-cases, arith, if◌then◌else◌, inl, inr, leb, ltb, some, suc, true, ℕ, ◌&&◌, ◌+◌, ◌-◌, ◌<◌,
  ◌==◌, ◌≡◌, ◌≤◌, ◌⊎◌,
}

-- `m` with the `n` bytes from `s` on copied to `d`, all read before any is written.
abbrev pub moved : Memory → Ptr → Ptr → ℕ → Memory
moved m d s n a = if leb d a && ltb a (d + n) then m (s + (a - d)) else m a

-- `m` with the `n` bytes from `p` on set to `v`.
abbrev pub filled : Memory → Ptr → ℕ → ℕ → Memory
filled m p v n a = if leb p a && ltb a (p + n) then some v else m a

pub is_mapped-put : (m : Memory) (q v a : ℕ) → is_mapped m a ≡ true → is_mapped (put m q v) a ≡ true
is_mapped-put m q v a h = elim (Bool-cases (a == q)) [
  | inl e ↦ rw (e, is_mapped)
  | inr e ↦ rw (e, is_mapped) h
]

pub IsMapped-put : (m : Memory) (p q v n : ℕ) → IsMapped m p n → IsMapped (put m q v) p n
IsMapped-put m p q v n h a lo hi = is_mapped-put m q v a (h a lo hi)

-- One byte fewer is mapped behind the first, and before the last.
pub IsMapped-suc : (m : Memory) (p n : ℕ) → IsMapped m p (suc n) → IsMapped m (p + 1) n
IsMapped-suc m p n h a lo hi = h a (omega arith) (omega arith)

pub IsMapped-init : (m : Memory) (p n : ℕ) → IsMapped m p (suc n) → IsMapped m p n
IsMapped-init m p n h a lo hi = h a lo (omega arith)

pub filled-suc :
    (m : Memory) (p v n : ℕ) (a : Ptr) → filled (put m p v) (p + 1) v n a ≡ filled m p v (suc n) a
filled-suc m p v n a = ground arith

pub is_mapped-moved :
    (m : Memory) (d s n a : ℕ)
    → IsMapped m s n
    → is_mapped m a ≡ true
    → is_mapped (moved m d s n) a ≡ true
is_mapped-moved m d s n a hs h = elim (Bool-cases (leb d a && ltb a (d + n))) [
  | inl e ↦ rw (e, is_mapped) (hs (s + (a - d)) (omega arith) (ground arith))
  | inr e ↦ rw (e, is_mapped) h
]

pub moved_inside : (m : Memory) (d s n k : ℕ) → k < n → moved m d s n (d + k) ≡ m (s + k)
moved_inside m d s n k h =
    let e : d + k - d ≡ k = omega arith in
    let lo : leb d (d + k) ≡ true = ground arith in
    let hi : ltb (d + k) (d + n) ≡ true = ground arith in rw (lo, hi, e)

pub moved_outside : (m : Memory) (d s n a : ℕ) → (a < d) ⊎ (d + n ≤ a) → moved m d s n a ≡ m a
moved_outside m d s n a out = ground arith

pub filled_inside : (m : Memory) (p v n a : ℕ) → p ≤ a → a < p + n → filled m p v n a ≡ some v
filled_inside m p v n a lo hi = ground arith

pub filled_outside : (m : Memory) (p v n a : ℕ) → (a < p) ⊎ (p + n ≤ a) → filled m p v n a ≡ m a
filled_outside m p v n a out = ground arith
