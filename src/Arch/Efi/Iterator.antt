-- ===== src/Arch/Efi/Iterator.antt =====
-- The iterator visits the runtime descriptors.
use native.Mathlib.Nat.{div-mul-le_self, mul-le-mul_right}
use yerp.Arch.Efi.{
  EfiMap, advance, advance_to_next, descriptor_at, efi_entry_count, iterator_next, iterator_valid,
  runtime_at, runtime_begin, runtime_end,
}
use yerp.Memory.{Outcome, Ptr, done, out_of_fuel, ◌>>=◌}
use yerp.Prelude.{
  Bool-cases, List, Option, [], arith, false, if◌then◌else◌, inl, inr, leb, ltb, none, some, suc,
  true, zero, ℕ, ◌*◌, ◌+◌, ◌-◌, ◌/◌, ◌<◌, ◌==◌, ◌∷◌, ◌≡◌, ◌≤◌,
}

-- `for ( it = runtimeBegin(); it.valid(); it.next() )`: what `*it` is in each round.
unfoldable pub visit : ℕ → (Ptr → ℕ) → EfiMap → ℕ → Outcome (List (Option Ptr))
visit zero attribute m idx = out_of_fuel
visit (suc f) attribute m idx =
    if iterator_valid m idx
    then (do
      rest ← visit f attribute m (iterator_next attribute m idx)
      done (descriptor_at m idx ∷ rest))
    else done []

-- The runtime descriptors among the `n` descriptors from `idx` on.
abbrev pub runtime_from : (Ptr → ℕ) → EfiMap → ℕ → ℕ → List (Option Ptr)
runtime_from attribute m zero idx = []
runtime_from attribute m (suc n) idx =
    if runtime_at attribute (descriptor_at m idx)
    then descriptor_at m idx ∷ runtime_from attribute m n (idx + 1)
    else runtime_from attribute m n (idx + 1)

visit-advance :
    (f : ℕ) (attribute : Ptr → ℕ) (m : EfiMap) (n idx : ℕ)
    → idx + n ≡ efi_entry_count m
    → n < f
    → visit f attribute m (advance attribute m n idx) ≡ done (runtime_from attribute m n idx)
unfolding visit advance iterator_valid iterator_next advance_to_next
visit-advance zero attribute m n idx e fuel = absurd (omega arith)
visit-advance (suc f) attribute m zero idx e fuel =
    let over : ltb idx (efi_entry_count m) ≡ false = ground arith in rw over
visit-advance (suc f) attribute m (suc n) idx e fuel =
    elim (Bool-cases (runtime_at attribute (descriptor_at m idx))) [
      | inl hit ↦
          let in_map : ltb idx (efi_entry_count m) ≡ true = ground arith in
          let left : efi_entry_count m - (idx + 1) ≡ n = omega arith in
          rw
            (hit, in_map, left, visit-advance f attribute m n (idx + 1) (omega arith) (omega arith))
      | inr miss ↦
          rw miss (visit-advance (suc f) attribute m n (idx + 1) (omega arith) (omega arith))
    ]

-- With fuel for more rounds than the map has descriptors, the loop from `runtimeBegin` by `next`
-- ends and meets exactly the descriptors with the runtime attribute, each once and in the order of
-- the map; `runtimeEnd` is not valid.
pub visit-runtime_from :
    (f : ℕ) (attribute : Ptr → ℕ) (m : EfiMap)
    → efi_entry_count m < f
    → (visit f attribute m (runtime_begin attribute m)
        ≡ done (runtime_from attribute m (efi_entry_count m) 0))
      × (iterator_valid m (runtime_end attribute m) ≡ false)
unfolding runtime_begin runtime_end advance_to_next advance iterator_valid
visit-runtime_from f attribute m fuel =
    let all : efi_entry_count m - 0 ≡ efi_entry_count m = omega arith in
    let no_more : efi_entry_count m - efi_entry_count m ≡ 0 = omega arith in
    let over : ltb (efi_entry_count m) (efi_entry_count m) ≡ false = ground arith in
    (
      rw all (visit-advance f attribute m (efi_entry_count m) 0 (omega arith) fuel),
      rw (no_more, advance) over,
    )

-- Every descriptor that `descriptorAt` returns lies in the `totalSize` bytes of the map, and from
-- `entryCount` on it returns a null pointer.
pub descriptor_at-bounds :
    (m : EfiMap) (idx : ℕ)
    → (idx < efi_entry_count m
        → (d : Ptr) × (descriptor_at m idx ≡ some d)
          × (m.map_base ≤ d)
          × (d + m.desc_size ≤ m.map_base + m.total_size))
      × (efi_entry_count m ≤ idx → descriptor_at m idx ≡ none)
unfolding descriptor_at efi_entry_count
descriptor_at-bounds m idx = elim (Bool-cases (m.desc_size == 0)) [
  | inl e ↦ (
    (λ lt. absurd (ground arith)),
    (λ le. let over : leb 0 idx ≡ true = ground arith in rw (e, over)),
  )
  | inr e ↦
      let whole = div-mul-le_self m.total_size m.desc_size in
      (
        (λ lt.
            let lt' : idx < m.total_size / m.desc_size = rw e at lt in
            let scaled : (idx + 1) * m.desc_size ≤ m.total_size / m.desc_size * m.desc_size =
              mul-le-mul_right m.desc_size (omega arith) in
            let in_map : leb (m.total_size / m.desc_size) idx ≡ false = ground arith in
            (
              m.map_base + idx * m.desc_size,
              rw (e, in_map),
              omega arith,
              omega (arith, scaled, whole),
            )),
        (λ le.
            let le' : m.total_size / m.desc_size ≤ idx = rw e at le in
            let over : leb (m.total_size / m.desc_size) idx ≡ true = ground arith in rw (e, over)),
      )
]
