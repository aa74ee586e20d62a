-- ===== src/Format/Reverse.antt =====
-- The swap loop turns the text round.
use yerp.Format.{Buffer, set_at, swap_loop}
use yerp.Prelude.{
  Bool-cases, arith, if◌then◌else◌, inl, inr, leb, ltb, suc, zero, ℕ, ◌&&◌, ◌+◌, ◌-◌, ◌/◌, ◌<◌, ◌∙◌,
  ◌≡◌,
}

-- The buffer whose text between `j` and `len - j` is turned round.
abbrev turned : ℕ → ℕ → Buffer → Buffer
turned j len buf i = if leb j i && ltb i (len - j) then buf (len - 1 - i) else buf i

turned_middle : (j len : ℕ) (buf : Buffer) → j + 0 ≡ len / 2 → (i : ℕ) → buf i ≡ turned j len buf i
turned_middle j len buf e i = elim (Bool-cases (leb j i && ltb i (len - j))) [
  | inl inside ↦ let at : len - 1 - i ≡ i = ground arith in rw (inside, at)
  | inr out ↦ rw out
]

turned_step :
    (k j len : ℕ) (buf : Buffer)
    → j + suc k ≡ len / 2
    → (i : ℕ)
    → turned (j + 1) len (set_at (set_at buf j (buf (len - 1 - j))) (len - 1 - j) (buf j)) i
      ≡ turned j len buf i
turned_step k j len buf e i = ground arith

swap_loop-turned :
    (k j len : ℕ) (buf : Buffer)
    → j + k ≡ len / 2
    → (i : ℕ) → swap_loop k j len buf i ≡ turned j len buf i
unfolding swap_loop
swap_loop-turned zero j len buf e i = turned_middle j len buf e i
swap_loop-turned (suc k) j len buf e i =
    swap_loop-turned k (j + 1) len _ (omega arith) i ∙ turned_step k j len buf e i

pub swap_loop-reverse :
    (len : ℕ) (buf : Buffer) (i : ℕ) → i < len → swap_loop (len / 2) 0 len buf i ≡ buf (len - 1 - i)
swap_loop-reverse len buf i h = swap_loop-turned (len / 2) 0 len buf (omega arith) i ∙ ground arith
