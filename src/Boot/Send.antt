-- ===== src/Boot/Send.antt =====
-- `FmtBase<Serial>` of kernel/Source/core/format.hh over `Serial` of
-- kernel/Source/arch/serial.hh: the characters that the formatter puts go to the port, one by one.
use mathlib.Core.List.{append_assoc, append-nil}
use yerp.Arch.Serial.{Line, SerialRegister, data_register, serial_put}
use yerp.Arch.Serial.Wait.{ReadyAfter, serial_put-ReadyAfter}
use yerp.Format.Print.{Value, c_string, print}
use yerp.Format.Printf.{Arg, printf}
use yerp.Format.Printf.Fields.{crlf, puts-crlf}
use yerp.Memory.{Memory, Outcome, Ptr, done, ◌>>=◌}
use yerp.Memory.Text.{IsCStr}
use yerp.Prelude.{
  All, Bool-cases, List, [], arith, false, inl, inr, length, map, refl, suc, sym, true, zero, ℕ,
  ◌%◌, ◌++◌, ◌+◌, ◌/◌, ◌<◌, ◌==◌, ◌^◌, ◌∙◌, ◌∷◌, ◌≡◌, ◌≤◌,
}
use yerp.Prelude.Int.{to_char, to_uchar}

-- `Serial::put` for each of the characters.
unfoldable pub send : ℕ → (ℕ → ℕ) → Line → List ℕ → Outcome Line
send f status s [] = done s
send f status s (c ∷ cs) = do s' ← serial_put f status s (to_char c); send f status s' cs

-- `FmtBase<Serial>::print`
unfoldable pub print_to : ℕ → Memory → (ℕ → ℕ) → Line → Value → Outcome Line
unfolding send
print_to f m status s v = do out ← print f m v; send f status s out

-- `FmtBase<Serial>::printf`
unfoldable pub printf_to : ℕ → Memory → (ℕ → ℕ) → Line → Ptr → List Arg → Outcome Line
unfolding send
printf_to f m status s p vs = do out ← printf f m p vs; send f status s out

-- After every read of the line status the transmitter is ready at one of the next `f` reads.
abbrev pub IsResponsive : ℕ → (ℕ → ℕ) → Type 0
IsResponsive f status = (k : ℕ) → (n : ℕ) × (n < f) × ((status (k + n) / 2 ^ 5 % 2 == 0) ≡ false)

-- The first of the reads that find the transmitter ready, where those before the read `i` do not
-- and the read `i + n` does.
first_ready :
    (status : ℕ → ℕ) (s : Line) (n i : ℕ)
    → ((k : ℕ) → k < i → (status (s.polls + k) / 2 ^ 5 % 2 == 0) ≡ true)
    → (status (s.polls + (i + n)) / 2 ^ 5 % 2 == 0) ≡ false
    → (j : ℕ) × (j ≤ i + n) × ReadyAfter 5 status s j
first_ready status s zero i busy e =
    let at : i + 0 ≡ i = omega arith in (i, omega arith, (busy, rw at at e))
first_ready status s (suc n) i busy e = elim (Bool-cases (status (s.polls + i) / 2 ^ 5 % 2 == 0)) [
  | inr now ↦ (i, omega arith, (busy, now))
  | inl still ↦
      let step : i + suc n ≡ suc i + n = omega arith in
      let (j, le, r) =
        first_ready status s n (suc i)
          (λ k lt. elim (Bool-cases (k == i)) [
            | inl last ↦ let last' : k ≡ i = ground arith in rw last' still
            | inr before ↦ busy k (ground arith)
          ])
          (rw step at e) in
      (j, omega arith, r)
]

-- The bytes that are written to the data register.
abbrev pub data_bytes : List ℕ → List (SerialRegister × ℕ)
data_bytes cs = map (λ c. (data_register, c)) cs

same_char : (c : ℕ) → c < 256 → to_uchar (to_char c) ≡ c
same_char c lt = ground arith

-- When the transmitter is ready again and again, at one of `f` reads of the line status, then for
-- any list of bytes all the calls of `put` return, and they have written exactly these bytes to
-- the data register, in their order, behind what was written before.
pub send-data_bytes :
    (f : ℕ) (status : ℕ → ℕ) (s : Line) (cs : List ℕ)
    → IsResponsive f status
    → All (λ c. c < 256) cs
    → (s' : Line) × (send f status s cs ≡ done s') × (s'.written ≡ s.written ++ data_bytes cs)
unfolding send
send-data_bytes f status s [] ready bytes = (s, refl, sym (append-nil s.written))
send-data_bytes f status s (c ∷ cs) ready bytes =
    let (n, few, on) = ready s.polls in
    let at : 0 + n ≡ n = omega arith in
    let (j, le, r) = first_ready status s n 0 (λ k lt. absurd (omega arith)) (rw at on) in
    let put_run = (serial_put-ReadyAfter f j status s (to_char c) r (omega arith)).0 in
    let s1 : Line = record {
      polls = s.polls + j + 1;
      written = s.written ++ (data_register, to_uchar (to_char c)) ∷ [];
    } in
    let (s', rest_run, all) = send-data_bytes f status s1 cs ready bytes.1 in
    (
      s',
      rw put_run rest_run,
      all
          ∙ append_assoc s.written ((data_register, to_uchar (to_char c)) ∷ []) (data_bytes cs)
          ∙ rw (same_char c bytes.0),
    )

crlf-All : (m : Memory) (p : Ptr) (xs : List ℕ) → IsCStr m p xs → All (λ c. c < 256) (crlf xs)
crlf-All m p [] h = tt
crlf-All m p (x ∷ xs) h = elim (Bool-cases (x == b'\n')) [
  | inl e ↦ rw e (omega arith, (h.2, crlf-All m (p + 1) xs h.3))
  | inr e ↦ rw e (h.2, crlf-All m (p + 1) xs h.3)
]

-- `print` of a string of which the length is below the fuel, over a port whose transmitter is ready
-- again and again, returns, and it has written the bytes of the string, with a carriage return
-- before each line feed; so does `printf` of a string without an argument.
pub print_to-written :
    (f : ℕ) (m : Memory) (status : ℕ → ℕ) (s : Line) (p : Ptr) (xs : List ℕ)
    → IsCStr m p xs
    → length xs < f
    → IsResponsive f status
    → (s' : Line) × (print_to f m status s (c_string p) ≡ done s')
      × (printf_to f m status s p [] ≡ done s')
      × (s'.written ≡ s.written ++ data_bytes (crlf xs))
unfolding print_to printf_to print printf
print_to-written f m status s p xs h fuel ready =
    let put_all = puts-crlf f m p xs h fuel in
    let (s', sent, all) = send-data_bytes f status s (crlf xs) ready (crlf-All m p xs h) in
    (s', rw (put_all, sent), rw (put_all, sent), all)
