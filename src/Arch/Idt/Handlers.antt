-- ===== src/Arch/Idt/Handlers.antt =====
-- `registerHandler`.
use yerp.Arch.Idt.{Handler, Idt, custom_handler, is_default, register_handler}
use yerp.Memory.{done}
use yerp.Prelude.{
  List, [], arith, false, get_elem?, get_elem?-set_ne, get_elem?-set_self, length, refl, set, some,
  suc, true, zero, ℕ, ◌<◌, ◌∷◌, ◌≡◌, ◌≢◌,
}

-- `registerHandler` of a handler of one's own at a vector that has a default handler returns true
-- and changes the handler of this vector only; from then on it returns false for this vector and
-- changes nothing.
pub register_handler-once :
    (s : Idt) (vector n : ℕ) (old : Handler)
    → get_elem? s.handler_table vector ≡ some old
    → is_default old ≡ true
    → (s' : Idt) × (register_handler s vector (custom_handler n) ≡ done (true, s'))
      × (get_elem? s'.handler_table vector ≡ some (custom_handler n))
      × ((v : ℕ) → vector ≢ v → get_elem? s'.handler_table v ≡ get_elem? s.handler_table v)
      × (s'.idt_table ≡ s.idt_table)
      × ((h : Handler) → register_handler s' vector h ≡ done (false, s'))
unfolding register_handler
register_handler-once s vector n old e free_vector =
    let changed =
      get_elem?-set_self s.handler_table vector (custom_handler n)
        (get_elem?-lt s.handler_table vector old e) in
    (
      record s { handler_table = set s.handler_table vector (custom_handler n) },
      rw (register_handler, e, free_vector),
      changed,
      (λ v ne. get_elem?-set_ne s.handler_table (custom_handler n) ne),
      refl,
      (λ h. rw (register_handler, changed)),
    )
  where
    get_elem?-lt :
        {A : Type 0} (xs : List A) (i : ℕ) (x : A) → get_elem? xs i ≡ some x → i < length xs
    get_elem?-lt [] i x h = absurd (ground arith)
    get_elem?-lt (y ∷ ys) zero x h = omega arith
    get_elem?-lt (y ∷ ys) (suc i) x h = omega (arith, get_elem?-lt ys i x h)
