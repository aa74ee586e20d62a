-- ===== src/Memory.antt =====
-- Byte memory as the C code of kernel/Source/util/string.c and the kernel's pointers see it.
-- An address is a number. An address that belongs to no object holds no byte, and a read or a
-- write there is a fault.
pub mod Order
pub mod Region
pub mod Search
pub mod Text
use yerp.Prelude.{
  Bool, Option, arith, false, if◌then◌else◌, none, some, true, ℕ, ◌+◌, ◌<◌, ◌==◌, ◌≡◌, ◌≤◌,
}

abbrev pub Ptr : Type 0
Ptr = ℕ

abbrev pub nullptr : Ptr
nullptr = 0

-- A byte is a number below 256.
abbrev pub Memory : Type 0
Memory = Ptr → Option ℕ

-- `fault` is undefined behaviour: an access to an unmapped address, or a signed overflow.
pub data Outcome {ℓ} (A : Type ℓ) : Type ℓ where
  done : A → Outcome A
  fault : Outcome A
  out_of_fuel : Outcome A

infixl 5 ◌>>=◌
abbrev pub ◌>>=◌ {ℓ κ} : {A : Type ℓ} {B : Type κ} → Outcome A → (A → Outcome B) → Outcome B
done a >>= k = k a
fault >>= k = fault
out_of_fuel >>= k = out_of_fuel

-- The memory after the byte `v` is written at `p`.
abbrev pub put : Memory → Ptr → ℕ → Memory
put m p v a = if a == p then some v else m a

unfoldable pub load : Memory → Ptr → Outcome ℕ
load m p = elim (m p) [ none ↦ fault | some v ↦ done v ]

unfoldable pub store : Memory → Ptr → ℕ → Outcome Memory
store m p v = elim (m p) [ none ↦ fault | some _ ↦ done (put m p v) ]

abbrev pub is_mapped : Memory → Ptr → Bool
is_mapped m a = elim (m a) [ none ↦ false | some _ ↦ true ]

-- The `n` bytes from `p` on belong to an object.
abbrev pub IsMapped : Memory → Ptr → ℕ → Type 0
IsMapped m p n = (a : Ptr) → p ≤ a → a < p + n → is_mapped m a ≡ true

pub load-eq : (m : Memory) (p v : ℕ) → m p ≡ some v → load m p ≡ done v
unfolding load
load-eq m p v e = rw (e, load)

pub store-eq : (m : Memory) (p v : ℕ) → is_mapped m p ≡ true → store m p v ≡ done (put m p v)
unfolding store
store-eq m p v e = ground arith

pub mapped_byte : (m : Memory) (p : Ptr) → is_mapped m p ≡ true → (v : ℕ) × (m p ≡ some v)
mapped_byte m p e = ground arith

pub load-none : (m : Memory) (p : Ptr) → m p ≡ none → load m p ≡ fault
unfolding load
load-none m p e = rw (e, load)

pub store-none : (m : Memory) (p v : ℕ) → m p ≡ none → store m p v ≡ fault
unfolding store
store-none m p v e = rw (e, store)
