-- ===== src/Ktl/SpinLock.antt =====
-- `SpinLock` of kernel/Source/ktl/atomic. `xchg` is one atomic access. A thread unlocks only
-- when it holds the lock, as `AutoLock` does.
pub mod Safety
use yerp.Ktl.Threads.{update}
use yerp.Prelude.{if◌then◌else◌, ℕ, ◌==◌, ◌≡◌}

pub data Pc : Type 0 where
  idle : Pc
  spinning : Pc
  holding : Pc

pub record Lock : Type 0 where
  pub flag : ℕ
  pub pc : ℕ → Pc

abbrev pub init : Lock
init = record { flag = 0; pc = λ i. idle }

-- `lock xchg` with the register at 1: the old flag and the new one.
unfoldable pub xchg : ℕ → ℕ × ℕ
xchg flag = (flag, 1)

-- One round of the loop of `lock`: where the thread goes, and the flag.
unfoldable pub lock_round : ℕ → Pc × ℕ
unfolding xchg
lock_round flag = let (tmp, flag') = xchg flag in (if tmp == 0 then holding else spinning, flag')

unfoldable pub try_lock : ℕ → Pc × ℕ
unfolding xchg
try_lock flag = let (tmp, flag') = xchg flag in (if tmp == 0 then holding else idle, flag')

unfoldable pub unlock : ℕ → ℕ
unlock flag = 0

-- A step of thread `i`: it enters `lock`, makes a round of its loop, calls `try_lock`, or unlocks.
pub data Step : Lock → Lock → Type 0 where
  enter : (s : Lock) (i : ℕ) → s.pc i ≡ idle → Step s (record s { pc = update s.pc i spinning })
  round :
      (s : Lock) (i : ℕ)
      → s.pc i ≡ spinning
      → Step s (record { flag = (lock_round s.flag).1; pc = update s.pc i (lock_round s.flag).0 })
  attempt :
      (s : Lock) (i : ℕ)
      → s.pc i ≡ idle
      → Step s (record { flag = (try_lock s.flag).1; pc = update s.pc i (try_lock s.flag).0 })
  release :
      (s : Lock) (i : ℕ)
      → s.pc i ≡ holding
      → Step s (record { flag = unlock s.flag; pc = update s.pc i idle })

pub data Reach : Lock → Type 0 where
  start : Reach init
  later : {s t : Lock} → Reach s → Step s t → Reach t
