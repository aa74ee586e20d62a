-- ===== src/Examples/Threads.antt =====
-- The spin lock and `call_once` after a few steps.
use yerp.Ktl.CallOnce
use yerp.Ktl.SpinLock
use yerp.Ktl.Atomic.{compare_exchange_strong, fetch_sub}
use yerp.Ktl.Atomic.Tickets.{fetch_add-tickets, tickets}
use yerp.Ktl.CallOnce.{Once, Reach, call, first_load, fresh_flag, later, returned_once, start}
use yerp.Ktl.CallOnce.Safety.{is_busy, runs_once}
use yerp.Ktl.SpinLock.{Lock, enter, holding, idle, init, lock_round, round, spinning, try_lock}
use yerp.Ktl.SpinLock.Safety.{mutual_exclusion}
use yerp.Ktl.Threads.{update}
use yerp.Prelude.{arith, false, get_elem?, refl, some, true, ℕ, ◌≡◌, ◌≢◌, ◌≤◌}

abbrev entered : Lock
entered = record init { pc = update init.pc 0 spinning }

-- Thread 0 has taken the lock.
abbrev held : Lock
held = record {
  flag = (lock_round entered.flag).1;
  pc = update entered.pc 0 (lock_round entered.flag).0;
}

held-Reach : SpinLock.Reach held
held-Reach =
    SpinLock.later (SpinLock.later SpinLock.start (SpinLock.enter init 0 refl))
      (SpinLock.round entered 0 refl)

mutual_exclusion_example :
    ((i j : ℕ) → held.pc i ≡ holding → held.pc j ≡ holding → i ≡ j)
    × (((i : ℕ) → held.pc i ≢ holding)
        → ((lock_round held.flag).0 ≡ holding) × ((try_lock held.flag).0 ≡ holding))
    × ((i : ℕ)
        → held.pc i ≡ holding
        → ((lock_round held.flag).0 ≡ spinning) × ((try_lock held.flag).0 ≡ idle))
mutual_exclusion_example = mutual_exclusion held-Reach

abbrev tried : Once
tried = record fresh_flag { pc = update fresh_flag.pc 4 (first_load fresh_flag.state) }

tried-Reach : CallOnce.Reach tried
tried-Reach = CallOnce.later CallOnce.start (CallOnce.call fresh_flag 4 refl)

runs_once_example :
    (tried.runs ≤ 1)
    × ((i : ℕ) → tried.pc i ≡ returned_once → tried.runs ≡ 1)
    × ((i j : ℕ) → is_busy (tried.pc i) ≡ true → is_busy (tried.pc j) ≡ true → i ≡ j)
runs_once_example = runs_once tried-Reach

lock_taken : (held.pc 0 ≡ holding) × (held.flag ≡ 1)
unfolding lock_round
lock_taken = (refl, refl)

-- Three calls at the end of the range.
fetch_add-tickets_example :
    ((a b : ℕ) × (get_elem? (tickets 3 4294967295).0 0 ≡ some a)
      × (get_elem? (tickets 3 4294967295).0 2 ≡ some b)
      × (a ≢ b))
    × ((tickets 3 4294967295).1 ≡ 2)
    × (fetch_sub 32 3 (tickets 3 4294967295).1 ≡ (2, 4294967295))
    × (compare_exchange_strong 4294967295 7 4294967295 ≡ (true, 4294967295, 7))
    × (compare_exchange_strong 5 7 4294967295 ≡ (false, 4294967295, 4294967295))
fetch_add-tickets_example =
    fetch_add-tickets 3 4294967295 0 2 5 7 (omega arith) (omega arith) (omega arith) (omega arith)
      (ground arith)
