-- ===== src/Util/Number/Reverse.antt =====
-- `reverse` of kernel/Source/util/string.c turns a text round in place.
use yerp.Memory.{IsMapped, Memory, Ptr, done, load-eq, mapped_byte, put, store-eq}
use yerp.Memory.Region.{IsMapped-put}
use yerp.Memory.Text.{Holds, Holds-IsMapped}
use yerp.Prelude.{
  Bool-cases, List, Option, arith, if◌then◌else◌, inl, inr, leb, length, ltb, reverse, suc, zero, ℕ,
  ◌&&◌, ◌*◌, ◌+◌, ◌-◌, ◌<◌, ◌==◌, ◌∙◌, ◌≡◌, ◌≤◌, ◌⊎◌,
}
use yerp.Util.Number.{reverse_loop, reverse_text, swap_chars}
use yerp.Util.Number.Text.{Holds-reverse}

-- `m` with the bytes of the text at `str` of the length `len` turned round, the first `j` and the
-- last `j` of them apart.
abbrev turned : Memory → Ptr → ℕ → ℕ → Memory
turned m str len j a =
    if leb (str + j) a && ltb a (str + (len - j)) then m (str + (len - 1 - (a - str))) else m a

turned_middle :
    (m : Memory) (str len j : ℕ)
    → len ≤ 2 * j + 1
    → 2 * j ≤ len
    → (a : Ptr) → m a ≡ turned m str len j a
turned_middle m str len j small le a =
    elim (Bool-cases (leb (str + j) a && ltb a (str + (len - j)))) [
      | inl e ↦ let at : str + (len - 1 - (a - str)) ≡ a = ground arith in rw (e, at)
      | inr e ↦ rw e
    ]

abbrev swapped : Memory → Ptr → Ptr → Option ℕ → Option ℕ → Memory
swapped m p q x y a = if a == q then x else (if a == p then y else m a)

swap_chars-eq :
    (m : Memory) (str len i j : ℕ)
    → IsMapped m str len
    → i < len
    → j < len
    → (m' : Memory) × (swap_chars m str i j ≡ done m')
      × ((a : Ptr) → m' a ≡ swapped m (str + i) (str + j) (m (str + i)) (m (str + j)) a)
      × IsMapped m' str len
unfolding swap_chars
swap_chars-eq m str len i j mapped hi hj =
    let at_i = mapped (str + i) (omega arith) (omega arith) in
    let at_j = mapped (str + j) (omega arith) (omega arith) in
    let (x, ex) = mapped_byte m (str + i) at_i in
    let (y, ey) = mapped_byte m (str + j) at_j in
    let m1 = put m (str + i) y in
    let mapped1 = IsMapped-put m str (str + i) y len mapped in
    (
      put m1 (str + j) x,
      rw (
        load-eq m (str + i) x ex,
        load-eq m (str + j) y ey,
        store-eq m (str + i) y at_i,
        store-eq m1 (str + j) x (mapped1 (str + j) (omega arith) (omega arith)),
      ),
      (λ a. rw (ex, ey)),
      IsMapped-put m1 str (str + j) x len mapped1,
    )

turned_step :
    (m m' : Memory) (str len j : ℕ)
    → j < len - 1 - j
    → ((a : Ptr)
        → m' a
          ≡ swapped m (str + j) (str + (len - 1 - j)) (m (str + j)) (m (str + (len - 1 - j))) a)
    → (a : Ptr) → turned m' str len (j + 1) a ≡ turned m str len j a
turned_step m m' str len j lt e a = rw (e a, e (str + (len - 1 - (a - str)))) (ground arith)

reverse_loop-turned :
    (f : ℕ) (m : Memory) (str len j : ℕ)
    → IsMapped m str len
    → len < f + j
    → 2 * j ≤ len
    → (m' : Memory) × (reverse_loop f m str j (len - 1 - j) ≡ done m')
      × ((a : Ptr) → m' a ≡ turned m str len j a)
unfolding reverse_loop
reverse_loop-turned zero m str len j mapped fuel half = absurd (omega arith)
reverse_loop-turned (suc f) m str len j mapped fuel half = elim (Bool-cases (ltb j (len - 1 - j))) [
  | inl e ↦
      let (m1, e1, swap, mapped1) =
        swap_chars-eq m str len j (len - 1 - j) mapped (ground arith) (ground arith) in
      let (m2, e2, turn) =
        reverse_loop-turned f m1 str len (j + 1) mapped1 (omega arith) (ground arith) in
      let at : len - 1 - j - 1 ≡ len - 1 - (j + 1) = omega arith in
      (m2, rw (e, e1, at) e2, (λ a. turn a ∙ turned_step m m1 str len j (ground arith) swap a))
  | inr e ↦ (m, rw e, turned_middle m str len j (ground arith) half)
]

-- With fuel for more rounds than the text has characters, the text is turned round and nothing
-- else changes.
pub reverse_text-Holds :
    (f : ℕ) (m : Memory) (str n : ℕ) (xs : List ℕ)
    → length xs ≡ n
    → Holds m str xs
    → n < f
    → (m' : Memory) × (reverse_text f m str n ≡ done m')
      × Holds m' str (reverse xs)
      × ((a : Ptr) → (a < str) ⊎ (str + n ≤ a) → m' a ≡ m a)
unfolding reverse_text
reverse_text-Holds f m str n xs len h fuel =
    let mapped = Holds-IsMapped m str n xs h len in
    let (m', e, turn) = reverse_loop-turned f m str n 0 mapped (omega arith) (omega arith) in
    let at : n - 1 - 0 ≡ n - 1 = omega arith in
    (
      m',
      rw at at e,
      Holds-reverse m m' str str xs h (λ k le. turn (str + k) ∙ ground arith),
      (λ a out. turn a ∙ ground arith),
    )
