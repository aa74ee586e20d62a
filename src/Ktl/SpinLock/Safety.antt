-- ===== src/Ktl/SpinLock/Safety.antt =====
-- The flag is set exactly while a thread holds the lock, and one thread at most does.
use yerp.Ktl.SpinLock.{
  Lock, Pc, Reach, Step, attempt, enter, holding, idle, init, later, lock_round, release, round,
  spinning, start, try_lock, unlock,
}
use yerp.Ktl.Threads.{update}
use yerp.Pmm.{free}
use yerp.Prelude.{Bool-cases, arith, inl, inr, refl, ℕ, ◌==◌, ◌≡◌, ◌≢◌, ◌⊎◌}

pub record IsOwned (s : Lock) : Type 0 where
  pub set_while_held : (i : ℕ) → s.pc i ≡ holding → s.flag ≡ 1
  pub unique : (i j : ℕ) → s.pc i ≡ holding → s.pc j ≡ holding → i ≡ j
  pub owner : (s.flag ≡ 0) ⊎ ((i : ℕ) × (s.pc i ≡ holding))

init-IsOwned : IsOwned init
init-IsOwned = record { set_while_held = λ i e. cc; unique = λ i j e e'. cc; owner = inl refl }

owner-move :
    (s : Lock) (i : ℕ) (p : Pc) (n : ℕ)
    → s.pc i ≢ holding
    → (s.flag ≡ 0 → n ≡ 0)
    → (s.flag ≡ 0) ⊎ ((j : ℕ) × (s.pc j ≡ holding))
    → (n ≡ 0) ⊎ ((j : ℕ) × (update s.pc i p j ≡ holding))
owner-move s i p n out keep0 (inl e) = inl (keep0 e)
owner-move s i p n out keep0 (inr (j, e)) = inr (j, ground arith)

-- A thread that does not hold the lock moves to a place where it does not hold it either.
move-IsOwned :
    (s : Lock) (i : ℕ) (p : Pc) (n : ℕ)
    → IsOwned s
    → s.pc i ≢ holding
    → p ≢ holding
    → (s.flag ≡ 0 → n ≡ 0)
    → (s.flag ≡ 1 → n ≡ 1)
    → IsOwned (record { flag = n; pc = update s.pc i p })
move-IsOwned s i p n v out out' keep0 keep1 = record {
  set_while_held = λ j e. ground (arith, v.set_while_held j);
  unique = λ j k e e'. ground (arith, v.unique j k);
  owner = owner-move s i p n out keep0 v.owner;
}

-- A free lock is taken by thread `i`.
take-IsOwned :
    (s : Lock) (i : ℕ)
    → IsOwned s
    → s.flag ≡ 0
    → IsOwned (record { flag = 1; pc = update s.pc i holding })
take-IsOwned s i v free = record {
  set_while_held = λ j e. refl;
  unique = λ j k e e'. ground (arith, v.set_while_held j, v.set_while_held k);
  owner = inr (i, ground arith);
}

give-IsOwned :
    (s : Lock) (i : ℕ)
    → IsOwned s
    → s.pc i ≡ holding
    → IsOwned (record { flag = 0; pc = update s.pc i idle })
give-IsOwned s i v held = record {
  set_while_held = λ j e. absurd (ground (arith, v.unique i j held));
  unique = λ j k e e'. ground (arith, v.unique j k);
  owner = inl refl;
}

-- Every step of a thread keeps the flag set exactly while some thread holds the lock, and keeps
-- the holder unique.
pub Step-IsOwned : {s t : Lock} → Step s t → IsOwned s → IsOwned t
unfolding lock_round try_lock unlock
Step-IsOwned (enter s i e) v =
    move-IsOwned s i spinning s.flag v (λ h. cc) (λ h. cc) (λ h. h) (λ h. h)
Step-IsOwned (round s i e) v = elim (Bool-cases (s.flag == 0)) [
  | inl free ↦ rw free (take-IsOwned s i v (ground arith))
  | inr taken ↦
      rw taken (move-IsOwned s i spinning 1 v (λ h. cc) (λ h. cc) (λ h. ground arith) (λ h. refl))
]
Step-IsOwned (attempt s i e) v = elim (Bool-cases (s.flag == 0)) [
  | inl free ↦ rw free (take-IsOwned s i v (ground arith))
  | inr taken ↦
      rw taken (move-IsOwned s i idle 1 v (λ h. cc) (λ h. cc) (λ h. ground arith) (λ h. refl))
]
Step-IsOwned (release s i e) v = give-IsOwned s i v e

Reach-IsOwned : {s : Lock} → Reach s → IsOwned s
Reach-IsOwned start = init-IsOwned
Reach-IsOwned (later r st) = Step-IsOwned st (Reach-IsOwned r)

-- In every state that any number of threads reach from an open lock, two threads never hold the
-- lock together, a round of `lock` or a call of `try_lock` gets the lock when no thread holds it,
-- and neither does while one holds it.
pub mutual_exclusion :
    {s : Lock}
    → Reach s
    → ((i j : ℕ) → s.pc i ≡ holding → s.pc j ≡ holding → i ≡ j)
      × (((i : ℕ) → s.pc i ≢ holding)
          → ((lock_round s.flag).0 ≡ holding) × ((try_lock s.flag).0 ≡ holding))
      × ((i : ℕ)
          → s.pc i ≡ holding
          → ((lock_round s.flag).0 ≡ spinning) × ((try_lock s.flag).0 ≡ idle))
unfolding lock_round try_lock
mutual_exclusion {s} r =
    let v = Reach-IsOwned r in
    (
      v.unique,
      (λ none_holds. open_flag none_holds v.owner),
      (λ i e. let e' : s.flag ≡ 1 = v.set_while_held i e in (rw e', rw e')),
    )
  where
    open_flag :
        ((i : ℕ) → s.pc i ≢ holding)
        → (s.flag ≡ 0) ⊎ ((i : ℕ) × (s.pc i ≡ holding))
        → ((lock_round s.flag).0 ≡ holding) × ((try_lock s.flag).0 ≡ holding)
    open_flag none_holds (inl e) = (rw e, rw e)
    open_flag none_holds (inr (i, e)) = absurd (none_holds i e)
