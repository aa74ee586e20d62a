-- ===== src/Ktl/Threads.antt =====
-- A program counter for each thread.
use yerp.Prelude.{if◌then◌else◌, ℕ, ◌==◌}

abbrev pub update {ℓ} : {A : Type ℓ} → (ℕ → A) → ℕ → A → ℕ → A
update f i a j = if i == j then a else f j
