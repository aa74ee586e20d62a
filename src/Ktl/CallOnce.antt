-- ===== src/Ktl/CallOnce.antt =====
-- `call_once` of kernel/Source/ktl/call_once. `runs` counts the calls of the callable.
pub mod Safety
use yerp.Ktl.Threads.{update}
use yerp.Prelude.{if◌then◌else◌, ℕ, ◌+◌, ◌==◌, ◌≡◌}

-- Where a thread is: not in `call_once`, before the compare and exchange, calling the callable,
-- before the store of 2, in the waiting loop, or returned from the call.
pub data Caller : Type 0 where
  outside : Caller
  trying : Caller
  running : Caller
  ran : Caller
  waiting : Caller
  returned_once : Caller

pub record Once : Type 0 where
  pub state : ℕ
  pub runs : ℕ
  pub pc : ℕ → Caller

abbrev pub fresh_flag : Once
fresh_flag = record { state = 0; runs = 0; pc = λ i. outside }

-- `if ( __atomic_load_n(&flag._state) == 2 ) return;`
unfoldable pub first_load : ℕ → Caller
first_load state = if state == 2 then returned_once else trying

-- The compare and exchange of 0 for 1.
unfoldable pub exchange : ℕ → Caller × ℕ
exchange state = if state == 0 then (running, 1) else (waiting, state)

-- A round of `while ( __atomic_load_n(&flag._state) != 2 ) pause();`
unfoldable pub wait_round : ℕ → Caller
wait_round state = if state == 2 then returned_once else waiting

pub data Step : Once → Once → Type 0 where
  call :
      (s : Once) (i : ℕ)
      → s.pc i ≡ outside
      → Step s (record s { pc = update s.pc i (first_load s.state) })
  try :
      (s : Once) (i : ℕ)
      → s.pc i ≡ trying
      → Step s (record s { state = (exchange s.state).1; pc = update s.pc i (exchange s.state).0 })
  run :
      (s : Once) (i : ℕ)
      → s.pc i ≡ running
      → Step s (record s { runs = s.runs + 1; pc = update s.pc i ran })
  publish :
      (s : Once) (i : ℕ)
      → s.pc i ≡ ran
      → Step s (record s { state = 2; pc = update s.pc i returned_once })
  wait :
      (s : Once) (i : ℕ)
      → s.pc i ≡ waiting
      → Step s (record s { pc = update s.pc i (wait_round s.state) })
  leave :
      (s : Once) (i : ℕ) → s.pc i ≡ returned_once → Step s (record s { pc = update s.pc i outside })

pub data Reach : Once → Type 0 where
  start : Reach fresh_flag
  later : {s t : Once} → Reach s → Step s t → Reach t
