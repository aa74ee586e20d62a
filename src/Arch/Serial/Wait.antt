-- ===== src/Arch/Serial/Wait.antt =====
-- The waiting loops of the serial port.
use yerp.Arch.Serial.{
  Line, data_register, flush, poll, rx_ready, serial_get, serial_put, tx_ready, wait_until,
}
use yerp.Memory.{done}
use yerp.Prelude.{
  [], arith, false, suc, true, zero, ℕ, ◌%◌, ◌++◌, ◌+◌, ◌/◌, ◌<◌, ◌==◌, ◌^◌, ◌∙◌, ◌∷◌, ◌≡◌,
}
use yerp.Prelude.Int.{to_char, to_uchar, ℤ}

-- The bit is 0 in the first `n` reads from now on and 1 in the read after them.
abbrev pub ReadyAfter : ℕ → (ℕ → ℕ) → Line → ℕ → Type 0
ReadyAfter bit status s n =
    ((k : ℕ) → k < n → (status (s.polls + k) / 2 ^ bit % 2 == 0) ≡ true)
    × ((status (s.polls + n) / 2 ^ bit % 2 == 0) ≡ false)

wait_until-ReadyAfter :
    (f n bit : ℕ) (status : ℕ → ℕ) (s : Line)
    → ReadyAfter bit status s n
    → n < f
    → wait_until f (poll bit status) s ≡ done (record s { polls = s.polls + n + 1 })
unfolding wait_until
wait_until-ReadyAfter zero n bit status s r fuel = absurd (omega arith)
wait_until-ReadyAfter (suc f) zero bit status s r fuel =
    let at : s.polls + 0 ≡ s.polls = omega arith in let hit = rw at at r.1 in rw (hit, at)
wait_until-ReadyAfter (suc f) (suc n) bit status s r fuel =
    let at : s.polls + 0 ≡ s.polls = omega arith in
    let miss = rw at at (r.0 0 (omega arith)) in
    let up : s.polls + 1 + n + 1 ≡ s.polls + suc n + 1 = omega arith in
    let later_on : ReadyAfter bit status (record s { polls = s.polls + 1 }) n = (
      (λ k lt.
          let e : s.polls + suc k ≡ s.polls + 1 + k = omega arith in
          rw e at (r.0 (suc k) (omega arith))),
      (let e : s.polls + suc n ≡ s.polls + 1 + n = omega arith in rw e at r.1),
    ) in
    rw miss (
      wait_until-ReadyAfter f n bit status (record s { polls = s.polls + 1 }) later_on (omega arith)
      ∙ rw up)

-- When the transmitter is ready at the read number `n` of the line status and not before, `put`
-- with fuel for more than `n` rounds returns after `n + 1` reads and has written the character to
-- the data register, once and nothing else; `flush` returns after the same reads and writes
-- nothing.
pub serial_put-ReadyAfter :
    (f n : ℕ) (status : ℕ → ℕ) (s : Line) (c : ℤ)
    → ReadyAfter 5 status s n
    → n < f
    → (serial_put f status s c
        ≡ done (record {
          polls = s.polls + n + 1;
          written = s.written ++ (data_register, to_uchar c) ∷ [];
        }))
      × (flush f status s ≡ done (record s { polls = s.polls + n + 1 }))
unfolding serial_put flush tx_ready
serial_put-ReadyAfter f n status s c r fuel =
    let waited = wait_until-ReadyAfter f n 5 status s r fuel in (rw waited, waited)

-- When a character has arrived at the read number `n` of the line status and not before, `get`
-- with fuel for more than `n` rounds returns what the data register then holds, and writes
-- nothing.
pub serial_get-ReadyAfter :
    (f n : ℕ) (status data_at : ℕ → ℕ) (s : Line)
    → ReadyAfter 0 status s n
    → n < f
    → serial_get f status data_at s
      ≡ done (to_char (data_at (s.polls + n + 1)), record s { polls = s.polls + n + 1 })
unfolding serial_get rx_ready
serial_get-ReadyAfter f n status data_at s r fuel =
    let waited = wait_until-ReadyAfter f n 0 status s r fuel in rw waited
