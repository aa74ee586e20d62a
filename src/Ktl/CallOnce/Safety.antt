-- ===== src/Ktl/CallOnce/Safety.antt =====
-- The callable runs once, and no call returns before it has run.
use yerp.Ktl.CallOnce.{
  Caller, Once, Reach, Step, call, exchange, first_load, fresh_flag, later, leave, outside, publish,
  ran, returned_once, run, running, start, try, wait, wait_round, waiting,
}
use yerp.Ktl.Threads.{update}
use yerp.Prelude.{Bool, Bool-cases, arith, false, inl, inr, refl, true, ℕ, ◌+◌, ◌==◌, ◌≡◌, ◌≤◌}

-- The thread has won the exchange and has not stored 2 yet.
abbrev pub is_busy : Caller → Bool
is_busy running = true
is_busy ran = true
is_busy _ = false

pub record IsOnce (s : Once) : Type 0 where
  pub before : s.state ≡ 0 → s.runs ≡ 0
  pub after : s.state ≡ 2 → s.runs ≡ 1
  pub busy : (i : ℕ) → is_busy (s.pc i) ≡ true → s.state ≡ 1
  pub unique : (i j : ℕ) → is_busy (s.pc i) ≡ true → is_busy (s.pc j) ≡ true → i ≡ j
  pub not_yet : (i : ℕ) → s.pc i ≡ running → s.runs ≡ 0
  pub by_now : (i : ℕ) → s.pc i ≡ ran → s.runs ≡ 1
  pub returned_after : (i : ℕ) → s.pc i ≡ returned_once → s.state ≡ 2
  pub at_most_once : s.runs ≤ 1

fresh_flag-IsOnce : IsOnce fresh_flag
fresh_flag-IsOnce = record {
  before = λ e. refl;
  after = λ e. absurd (omega arith);
  busy = λ i e. cc;
  unique = λ i j e e'. cc;
  not_yet = λ i e. cc;
  by_now = λ i e. cc;
  returned_after = λ i e. cc;
  at_most_once = omega arith;
}

-- A thread that is not busy moves to a place that is not busy, and the flag stays.
quiet-IsOnce :
    (s : Once) (i : ℕ) (p : Caller)
    → IsOnce s
    → is_busy p ≡ false
    → (p ≡ returned_once → s.state ≡ 2)
    → IsOnce (record s { pc = update s.pc i p })
quiet-IsOnce s i p v quiet back = record {
  before = v.before;
  after = v.after;
  busy = λ j e. ground (arith, v.busy j);
  unique = λ j k e e'. ground (arith, v.unique j k);
  not_yet = λ j e. ground (arith, v.not_yet j);
  by_now = λ j e. ground (arith, v.by_now j);
  returned_after = λ j e. ground (arith, v.returned_after j);
  at_most_once = v.at_most_once;
}

win-IsOnce :
    (s : Once) (i : ℕ)
    → IsOnce s
    → s.state ≡ 0
    → IsOnce (record s { state = 1; pc = update s.pc i running })
win-IsOnce s i v open_flag = record {
  before = λ e. absurd (omega arith);
  after = λ e. absurd (omega arith);
  busy = λ j e. refl;
  unique = λ j k e e'. ground (arith, v.busy j, v.busy k);
  not_yet = λ j e. v.before open_flag;
  by_now = λ j e. ground (arith, v.busy j, v.by_now j);
  returned_after = λ j e. ground (arith, v.returned_after j);
  at_most_once = v.at_most_once;
}

run-IsOnce :
    (s : Once) (i : ℕ)
    → IsOnce s
    → s.pc i ≡ running
    → IsOnce (record s { runs = s.runs + 1; pc = update s.pc i ran })
run-IsOnce s i v e =
    let won : s.state ≡ 1 = v.busy i (rw e) in
    let none_yet : s.runs ≡ 0 = v.not_yet i e in
    record {
      before = λ h. absurd (omega arith);
      after = λ h. absurd (omega arith);
      busy = λ j h. won;
      unique = λ j k h h'. ground (arith, v.unique j k);
      not_yet = λ j h. ground (arith, v.unique i j);
      by_now = λ j h. omega arith;
      returned_after = λ j h. ground (arith, v.returned_after j);
      at_most_once = omega arith;
    }

publish-IsOnce :
    (s : Once) (i : ℕ)
    → IsOnce s
    → s.pc i ≡ ran
    → IsOnce (record s { state = 2; pc = update s.pc i returned_once })
publish-IsOnce s i v e =
    let once : s.runs ≡ 1 = v.by_now i e in
    record {
      before = λ h. absurd (omega arith);
      after = λ h. once;
      busy = λ j h. ground (arith, v.unique i j);
      unique = λ j k h h'. ground (arith, v.unique j k);
      not_yet = λ j h. ground (arith, v.unique i j);
      by_now = λ j h. once;
      returned_after = λ j h. refl;
      at_most_once = v.at_most_once;
    }

Step-IsOnce : {s t : Once} → Step s t → IsOnce s → IsOnce t
unfolding first_load exchange wait_round
Step-IsOnce (call s i e) v = quiet-IsOnce s i _ v (ground arith) (λ h. ground arith)
Step-IsOnce (try s i e) v = elim (Bool-cases (s.state == 0)) [
  | inl first ↦ rw first (win-IsOnce s i v (ground arith))
  | inr late ↦ rw late (quiet-IsOnce s i waiting v refl (λ h. cc))
]
Step-IsOnce (run s i e) v = run-IsOnce s i v e
Step-IsOnce (publish s i e) v = publish-IsOnce s i v e
Step-IsOnce (wait s i e) v = quiet-IsOnce s i _ v (ground arith) (λ h. ground arith)
Step-IsOnce (leave s i e) v = quiet-IsOnce s i outside v refl (λ h. cc)

Reach-IsOnce : {s : Once} → Reach s → IsOnce s
Reach-IsOnce start = fresh_flag-IsOnce
Reach-IsOnce (later r st) = Step-IsOnce st (Reach-IsOnce r)

-- In every state that any number of threads reach from a fresh flag, the callable has run at most
-- once, it has run once when a call of `call_once` has returned, and two threads are never
-- between the exchange and the store of 2 together.
pub runs_once :
    {s : Once}
    → Reach s
    → (s.runs ≤ 1)
      × ((i : ℕ) → s.pc i ≡ returned_once → s.runs ≡ 1)
      × ((i j : ℕ) → is_busy (s.pc i) ≡ true → is_busy (s.pc j) ≡ true → i ≡ j)
runs_once r =
    let v = Reach-IsOnce r in (v.at_most_once, (λ i e. v.after (v.returned_after i e)), v.unique)
