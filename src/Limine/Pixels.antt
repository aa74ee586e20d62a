-- ===== src/Limine/Pixels.antt =====
-- The framebuffers and the modules of kernel/Source/core/limine.hh, and the bytes of a framebuffer.
use native.Mathlib.Nat.{mod-eq_of_lt, mul-le-mul_right}
use yerp.Limine.Files.{Modules, module_at, module_count, modules_available}
use yerp.Limine.Framebuffer.{
  Framebuffers, LimineFramebuffer, as_bytes, framebuffer_at, framebuffer_available,
  framebuffer_count,
}
use yerp.Memory.{Ptr, done, fault, nullptr}
use yerp.Prelude.{
  Bool-cases, Option, ap, arith, false, inl, inr, leb, ltb, none, refl, some, suc, true, ℕ, ◌*◌,
  ◌+◌, ◌<◌, ◌==◌, ◌^◌, ◌≡◌, ◌≤◌,
}

-- `framebufferAt` and `moduleAt` return the element of the bootloader's array for an index below the
-- answered count, and a null pointer for every other index and, for a framebuffer, without an
-- answer.
pub framebuffer_at-module_at :
    (revision idx : ℕ) (a : Framebuffers) (b : Modules)
    → (idx < a.framebuffer_total
        → framebuffer_at (some (record { response_revision = suc revision; answer = a })) idx
          ≡ done (a.answered_framebuffers idx))
      × (a.framebuffer_total ≤ idx
          → framebuffer_at (some (record { response_revision = suc revision; answer = a })) idx
            ≡ done nullptr)
      × (idx < b.answered_count
          → module_at (some (record { response_revision = suc revision; answer = b })) idx
            ≡ done (b.answered_modules idx))
      × (b.answered_count ≤ idx
          → module_at (some (record { response_revision = suc revision; answer = b })) idx
            ≡ done nullptr)
      × (framebuffer_at none idx ≡ done nullptr)
unfolding framebuffer_at framebuffer_count framebuffer_available module_at module_count
    modules_available
framebuffer_at-module_at revision idx a b =
    let revised : (suc revision == 0) ≡ false = ground arith in
    let over : leb 0 idx ≡ true = ground arith in
    (
      (λ lt. ground arith),
      (λ le. ground arith),
      (λ lt. ground arith),
      (λ le. ground arith),
      rw over,
    )

-- A byte of a row stands before the next row.
row_below : (n rows x y : ℕ) → x < n → y < rows → y * n + x < rows * n
row_below n rows x y hx hy =
    let next : (y + 1) * n ≤ rows * n = mul-le-mul_right n (omega arith) in omega (arith, next)

-- The number of a byte determines its row and its place in the row.
row_unique : (n x y x' y' : ℕ) → x < n → x' < n → y * n + x ≡ y' * n + x' → (x ≡ x') × (y ≡ y')
row_unique n x y x' y' hx hx' e = elim (Bool-cases (ltb y y')) [
  | inl lt ↦ let before = row_below n y' x y hx (ground arith) in absurd (omega (arith, before, e))
  | inr ge ↦ elim (Bool-cases (ltb y' y)) [
    | inl gt ↦
        let behind = row_below n y x' y' hx' (ground arith) in absurd (omega (arith, behind, e))
    | inr le ↦
        let same_row : y ≡ y' = ground arith in
        let e' : y' * n + x ≡ y' * n + x' = rw same_row at e in (omega (arith, e'), same_row)
  ]
]

-- The byte `x` of the row `y` of a framebuffer, whose size in bytes is below 2 ^ 64, lies in the
-- slice that `asBytes` returns, and two different places of the framebuffer are different bytes of
-- it. A framebuffer that is null has no bytes: to ask for them is a fault.
pub as_bytes-rows :
    (framebuffer : Ptr → Option LimineFramebuffer) (fb : Ptr) (b : LimineFramebuffer)
    → framebuffer nullptr ≡ none
    → framebuffer fb ≡ some b
    → b.fb_height * b.fb_pitch < 2 ^ 64
    → (as_bytes framebuffer nullptr ≡ fault)
      × ((first length : ℕ) × (as_bytes framebuffer fb ≡ done (first, length))
          × (first ≡ b.fb_address)
          × ((x y : ℕ) → x < b.fb_pitch → y < b.fb_height → y * b.fb_pitch + x < length)
          × ((x y x' y' : ℕ)
              → x < b.fb_pitch
              → x' < b.fb_pitch
              → y * b.fb_pitch + x ≡ y' * b.fb_pitch + x'
              → (x ≡ x') × (y ≡ y')))
unfolding as_bytes
as_bytes-rows framebuffer fb b null there fits = (
  rw null,
  (
    b.fb_address,
    b.fb_height * b.fb_pitch,
    rw there (ap (λ n. done (b.fb_address, n)) (mod-eq_of_lt fits)),
    refl,
    (λ x y hx hy. row_below b.fb_pitch b.fb_height x y hx hy),
    (λ x y x' y' hx hx' e. row_unique b.fb_pitch x y x' y' hx hx' e),
  ),
)
