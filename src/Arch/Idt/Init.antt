-- ===== src/Arch/Idt/Init.antt =====
-- The table after `init`.
use yerp.Arch.Idt.{
  Gate, Idt, default_handler, gate_of, init_idt, init_vectors, interrupt_gate, load_idt, set_gate,
  trap_gate,
}
use yerp.Prelude.{
  Bool, Bool-cases, List, arith, false, get_elem?, get_elem?-set_ne, get_elem?-set_self,
  if◌then◌else◌, inl, inr, leb, length, length-set, ltb, refl, set, some, suc, true, zero, ℕ, ◌%◌,
  ◌&&◌, ◌*◌, ◌+◌, ◌-◌, ◌<◌, ◌==◌, ◌^◌, ◌∙◌, ◌≡◌, ◌≢◌, ◌≤◌,
}

-- The address that the processor reads from a gate.
abbrev pub gate_address : Gate → ℕ
gate_address g = g.offset_low + g.offset_mid * 2 ^ 16 + g.offset_high * 2 ^ 32

-- Both tables have an entry for each vector.
abbrev pub IsTable : Idt → Type 0
IsTable s = (length s.idt_table ≡ 256) × (length s.handler_table ≡ 256)

abbrev between : ℕ → ℕ → ℕ → Bool
between vec n i = leb vec i && ltb i (vec + n)

-- What one of the loops leaves: the entries of its vectors, and no other changed.
record Initialised (stubs : ℕ → ℕ) (flags n vec : ℕ) (s s' : Idt) : Type 0 where
  table : IsTable s'
  gates :
      (i : ℕ)
      → get_elem? s'.idt_table i
        ≡ (if between vec n i then some (gate_of (stubs i) flags) else get_elem? s.idt_table i)
  handlers :
      (i : ℕ)
      → get_elem? s'.handler_table i
        ≡ (if between vec n i then some default_handler else get_elem? s.handler_table i)
  pointer : (s'.idt_limit ≡ s.idt_limit) × (s'.idt_base ≡ s.idt_base)

-- A list that is set at `vec` and then between `vec + 1` and `vec + suc n`.
set_then :
    {A : Type 0} (xs : List A) (vec n i : ℕ) (f : ℕ → A)
    → vec < length xs
    → (if between (vec + 1) n i then some (f i) else get_elem? (set xs vec (f vec)) i)
      ≡ (if between vec (suc n) i then some (f i) else get_elem? xs i)
set_then xs vec n i f lt = elim (Bool-cases (vec == i)) [
  | inl e ↦
      let e' : i ≡ vec = ground arith in
      let out : between (vec + 1) n vec ≡ false = ground arith in
      let within : between vec (suc n) vec ≡ true = ground arith in
      rw (e', out, within) (get_elem?-set_self xs vec (f vec) lt)
  | inr e ↦
      let ne : vec ≢ i = ground arith in
      let same_range : between (vec + 1) n i ≡ between vec (suc n) i = ground arith in
      rw (same_range, get_elem?-set_ne xs (f vec) ne)
]

init_vectors-Initialised :
    (stubs : ℕ → ℕ) (flags n vec : ℕ) (s : Idt)
    → IsTable s
    → vec + n ≤ 256
    → Initialised stubs flags n vec s (init_vectors stubs flags n vec s)
unfolding init_vectors set_gate
init_vectors-Initialised stubs flags zero vec s t le = record {
  table = t;
  gates = λ i. let out : between vec 0 i ≡ false = ground arith in rw out;
  handlers = λ i. let out : between vec 0 i ≡ false = ground arith in rw out;
  pointer = (refl, refl);
}
init_vectors-Initialised stubs flags (suc n) vec s t le =
    let gates' = set s.idt_table vec (gate_of (stubs vec) flags) in
    let handlers' = set s.handler_table vec default_handler in
    let rest =
      init_vectors-Initialised stubs flags n (vec + 1)
        (record s { idt_table = gates'; handler_table = handlers' })
        (length-set s.idt_table vec _ ∙ t.0, length-set s.handler_table vec _ ∙ t.1)
        (omega arith) in
    record {
      table = rest.table;
      gates = λ i.
          rest.gates i
          ∙ set_then s.idt_table vec n i (λ j. gate_of (stubs j) flags) (omega (arith, t.0));
      handlers = λ i.
          rest.handlers i
          ∙ set_then s.handler_table vec n i (λ j. default_handler) (omega (arith, t.1));
      pointer = rest.pointer;
    }

-- The gate of a vector after `init`.
abbrev pub flags_of : ℕ → ℕ
flags_of vec = if ltb vec 32 then trap_gate else interrupt_gate

gate_of-address : (base flags : ℕ) → base < 2 ^ 64 → gate_address (gate_of base flags) ≡ base
unfolding gate_of
gate_of-address base flags h = omega arith

gate_of-selector : (base flags : ℕ) → (gate_of base flags).selector ≡ 8
unfolding gate_of
gate_of-selector base flags = refl

gate_of-attribute : (base flags : ℕ) → (gate_of base flags).gate_attribute ≡ flags
unfolding gate_of
gate_of-attribute base flags = refl

-- The two loops of `init` together.
loops-gates :
    (stubs : ℕ → ℕ) (s1 s2 s3 : Idt) (vec : ℕ)
    → Initialised stubs trap_gate 32 0 s1 s2
    → Initialised stubs interrupt_gate 224 32 s2 s3
    → vec < 256
    → (get_elem? s3.idt_table vec ≡ some (gate_of (stubs vec) (flags_of vec)))
      × (get_elem? s3.handler_table vec ≡ some default_handler)
loops-gates stubs s1 s2 s3 vec first second lt = elim (Bool-cases (ltb vec 32)) [
  | inl low ↦
      let out : between 32 224 vec ≡ false = ground arith in
      let within : between 0 32 vec ≡ true = ground arith in
      (
        rw (second.gates vec, out, first.gates vec, within, low),
        rw (second.handlers vec, out, first.handlers vec, within),
      )
  | inr high ↦
      let within : between 32 224 vec ≡ true = ground arith in
      (rw (second.gates vec, within, high), rw (second.handlers vec, within))
]

-- After `init` the processor has loaded a table of 4096 bytes at the address of the table, and
-- for each of the 256 vectors the gate leads to the stub of this vector (an address of 64 bits) in
-- the kernel's code segment, is a trap gate below vector 32 and an interrupt gate from there on,
-- and the handler is the default one.
pub init_idt-gates :
    (address : ℕ) (stubs : ℕ → ℕ) (s : Idt)
    → IsTable s
    → ((vec : ℕ) → stubs vec < 2 ^ 64)
    → ((init_idt address stubs s).cpu_idt ≡ some (4095, address))
      × ((vec : ℕ)
          → vec < 256
          → (g : Gate) × (get_elem? (init_idt address stubs s).idt_table vec ≡ some g)
            × (gate_address g ≡ stubs vec)
            × (g.selector ≡ 8)
            × (g.gate_attribute ≡ flags_of vec)
            × (get_elem? (init_idt address stubs s).handler_table vec ≡ some default_handler))
unfolding init_idt load_idt
init_idt-gates address stubs s t word =
    let s1 = record s { idt_limit = (256 * 16 - 1) % 2 ^ 16; idt_base = address } in
    let s2 = init_vectors stubs trap_gate 32 0 s1 in
    let s3 = init_vectors stubs interrupt_gate 224 32 s2 in
    let first = init_vectors-Initialised stubs trap_gate 32 0 s1 t (omega arith) in
    let second =
      init_vectors-Initialised stubs interrupt_gate 224 32 s2 first.table (omega arith) in
    (
      rw (second.pointer.0, second.pointer.1, first.pointer.0, first.pointer.1),
      (λ vec lt.
          let (gate, handler) = loops-gates stubs s1 s2 s3 vec first second lt in
          (
            gate_of (stubs vec) (flags_of vec),
            gate,
            gate_of-address (stubs vec) (flags_of vec) (word vec),
            gate_of-selector (stubs vec) (flags_of vec),
            gate_of-attribute (stubs vec) (flags_of vec),
            handler,
          )),
    )
