-- ===== src/Ktl/Atomic/Tickets.antt =====
-- A counter of 32 bits that any number of threads count up: the calls are taken in the order in
-- which their atomic accesses happen.
use yerp.Ktl.Atomic.{cmpxchg, compare_exchange_strong, fetch_add, fetch_sub}
use yerp.Prelude.{
  List, [], ap, arith, false, get_elem?, some, suc, true, zero, ℕ, ◌%◌, ◌+◌, ◌<◌, ◌==◌, ◌^◌, ◌∙◌,
  ◌∷◌, ◌≡◌, ◌≢◌, ◌≤◌,
}

-- What `n` calls of `fetch_add( 1 )` return, and the value behind them.
unfoldable pub tickets : ℕ → ℕ → List ℕ × ℕ
tickets zero v = ([], v)
tickets (suc n) v =
    let (ticket, v') = fetch_add 32 1 v in let rest = tickets n v' in (ticket ∷ rest.0, rest.1)

ticket_at : (n v i : ℕ) → v < 2 ^ 32 → i < n → get_elem? (tickets n v).0 i ≡ some ((v + i) % 2 ^ 32)
unfolding tickets fetch_add
ticket_at zero v i word lt = absurd (omega arith)
ticket_at (suc n) v zero word lt = ap some (omega arith)
ticket_at (suc n) v (suc i) word lt =
    ticket_at n ((v + 1) % 2 ^ 32) i (omega arith) (omega arith) ∙ ap some (omega arith)

tickets_behind : (n v : ℕ) → v < 2 ^ 32 → (tickets n v).1 ≡ (v + n) % 2 ^ 32
unfolding tickets fetch_add
tickets_behind zero v word = omega arith
tickets_behind (suc n) v word = tickets_behind n ((v + 1) % 2 ^ 32) (omega arith) ∙ omega arith

-- Of at most 2 ^ 32 calls of `fetch_add( 1 )` on a 32-bit counter, whichever threads make them, no
-- two return the same number, and the counter has grown by their number, modulo 2 ^ 32; a
-- `fetch_sub` of this number then returns the value behind the calls and restores the first one.
-- From any value, `compare_exchange_strong` succeeds with the value itself and stores the new one;
-- with every other value it fails, changes nothing and reports the value that is there, with which
-- it then succeeds.
pub fetch_add-tickets :
    (n v i j expected desired : ℕ)
    → v < 2 ^ 32
    → n ≤ 2 ^ 32
    → i < j
    → j < n
    → expected ≢ v
    → ((a b : ℕ) × (get_elem? (tickets n v).0 i ≡ some a)
        × (get_elem? (tickets n v).0 j ≡ some b)
        × (a ≢ b))
      × ((tickets n v).1 ≡ (v + n) % 2 ^ 32)
      × (fetch_sub 32 (n % 2 ^ 32) (tickets n v).1 ≡ ((v + n) % 2 ^ 32, v))
      × (compare_exchange_strong v desired v ≡ (true, v, desired))
      × (compare_exchange_strong expected desired v ≡ (false, v, v))
unfolding fetch_sub fetch_add compare_exchange_strong cmpxchg
fetch_add-tickets n v i j expected desired word few lt below other =
    let behind = tickets_behind n v word in
    (
      (
        (v + i) % 2 ^ 32,
        (v + j) % 2 ^ 32,
        ticket_at n v i word (omega arith),
        ticket_at n v j word below,
        (λ same_ticket. omega arith),
      ),
      behind,
      rw behind (ap (λ r. ((v + n) % 2 ^ 32, r)) (omega arith)),
      (let eq : (v == v) ≡ true = ground arith in rw (eq, eq)),
      (let ne : (v == expected) ≡ false = ground arith in rw (ne, ne)),
    )
