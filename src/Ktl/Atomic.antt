-- ===== src/Ktl/Atomic.antt =====
-- `atomic<T>` of kernel/Source/ktl/atomic for an unsigned `T` of `bits` bits, 32 or 64. Each member
-- is one atomic access: it takes the value that the object holds and yields what it returns and
-- the value that the object holds then.
pub mod Tickets
use yerp.Prelude.{Bool, false, if◌then◌else◌, true, ℕ, ◌%◌, ◌+◌, ◌-◌, ◌==◌, ◌^◌}

abbrev pub atomic_load : ℕ → ℕ × ℕ
atomic_load v = (v, v)

abbrev pub atomic_store : ℕ → ℕ → ℕ
atomic_store desired v = desired

unfoldable pub atomic_exchange : ℕ → ℕ → ℕ × ℕ
atomic_exchange desired v = (v, desired)

-- `lock cmpxchg` with `prev` in the accumulator: what `prev` and the object hold then.
unfoldable pub cmpxchg : ℕ → ℕ → ℕ → ℕ × ℕ
cmpxchg prev desired v = if v == prev then (prev, desired) else (v, v)

-- The result, `expected`, and the value of the object.
unfoldable pub compare_exchange_strong : ℕ → ℕ → ℕ → Bool × ℕ × ℕ
unfolding cmpxchg
compare_exchange_strong expected desired v =
    let (prev, v') = cmpxchg expected desired v in
    if prev == expected then (true, expected, v') else (false, prev, v')

-- `lock xadd`
unfoldable pub fetch_add : ℕ → ℕ → ℕ → ℕ × ℕ
fetch_add bits arg v = (v, (v + arg) % 2 ^ bits)

-- `static_cast<T>( -arg )`
unfoldable pub fetch_sub : ℕ → ℕ → ℕ → ℕ × ℕ
unfolding fetch_add
fetch_sub bits arg v = fetch_add bits ((2 ^ bits - arg) % 2 ^ bits) v
