-- ===== src/Ktl/StringView.antt =====
-- `ktl::string_view` of kernel/Source/ktl/string_view. A size is a number of 64 bits and wraps.
-- `char` is signed.
pub mod Order
pub mod Part
use yerp.Memory.{Memory, Outcome, Ptr, done, load, nullptr, out_of_fuel, ◌>>=◌}
use yerp.Prelude.{
  Bool, Option, if◌then◌else◌, ltb, min, none, some, suc, zero, ℕ, ◌%◌, ◌+◌, ◌-◌, ◌==◌, ◌^◌,
}
use yerp.Prelude.Int.{eq_ℤ, ltb_ℤ, negsuc, pos, to_char, ℤ}

pub record StringView : Type 0 where
  pub view_data : Ptr
  pub view_size : ℕ

-- `string_view()`
abbrev pub empty_view : StringView
empty_view = record { view_data = nullptr; view_size = 0 }

-- The loop of `compute_length`, from `len` on.
unfoldable pub length_loop : ℕ → Memory → Ptr → ℕ → Outcome ℕ
length_loop zero m s len = out_of_fuel
length_loop (suc f) m s len = do
  b ← load m (s + len)
  let rest = length_loop f m s (len + 1)
  if b == 0 then done len else rest

-- `string_view( const_pointer s )`
unfoldable pub view_of : ℕ → Memory → Ptr → Outcome StringView
unfolding length_loop
view_of f m s = do len ← length_loop f m s 0; done (record { view_data = s; view_size = len })

-- `operator[]`
unfoldable pub view_at : Memory → StringView → ℕ → Outcome ℕ
view_at m v i = load m (v.view_data + i)

unfoldable pub remove_prefix : StringView → ℕ → StringView
remove_prefix v n = record {
  view_data = v.view_data + n;
  view_size = (v.view_size + 2 ^ 64 - n) % 2 ^ 64;
}

unfoldable pub remove_suffix : StringView → ℕ → StringView
remove_suffix v n = record v { view_size = (v.view_size + 2 ^ 64 - n) % 2 ^ 64 }

unfoldable pub substr : StringView → ℕ → ℕ → StringView
substr v offset count =
    let start_at = if ltb v.view_size offset then v.view_size else offset in
    let left = v.view_size - start_at in
    record {
      view_data = v.view_data + start_at;
      view_size = if ltb count left then count else left;
    }

-- The loop of `compare`, `n` rounds from the bytes at `a` and `b` on: `none` when it ends without
-- a result.
unfoldable pub compare_loop : ℕ → Memory → Ptr → Ptr → Outcome (Option ℤ)
compare_loop zero m a b = done none
compare_loop (suc n) m a b = do
  x ← load m a
  y ← load m b
  let rest = compare_loop n m (a + 1) (b + 1)
  if ltb_ℤ (to_char x) (to_char y)
      then done (some (negsuc 0))
      else (if ltb_ℤ (to_char y) (to_char x) then done (some (pos 1)) else rest)

unfoldable pub compare : Memory → StringView → StringView → Outcome ℤ
unfolding compare_loop
compare m v w = do
  parted ← compare_loop (min v.view_size w.view_size) m v.view_data w.view_data
  done (elim parted [
    | some r ↦ r
    | none ↦
        if ltb v.view_size w.view_size
        then negsuc 0
        else (if ltb w.view_size v.view_size then pos 1 else pos 0)
  ])

-- The operators `==` and `<`; the four others are their negations and their converse.
unfoldable pub view_eq : Memory → StringView → StringView → Outcome Bool
unfolding compare
view_eq m v w = do r ← compare m v w; done (eq_ℤ r (pos 0))

unfoldable pub view_lt : Memory → StringView → StringView → Outcome Bool
unfolding compare
view_lt m v w = do r ← compare m v w; done (ltb_ℤ r (pos 0))
