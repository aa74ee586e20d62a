-- ===== src/Limine.antt =====
-- `Limine` of kernel/Source/core/limine.hh: what the bootloader answers. The classes `MemoryMap`
-- and `HHDM` stand with the page allocator. The file stands under `#if 0` in the source, and the
-- build sets LIMINE_API_REVISION to 3. The bootloader's structures hold the fields that the code
-- reads; a field that the code does not read is left out.
pub mod Loader
pub mod Files
pub mod Framebuffer
pub mod Tables
pub mod Texts
pub mod Guards
pub mod Pixels
use yerp.Ktl.StringView.{StringView}
use yerp.Memory.{Memory, Outcome, Ptr, done, fault, ◌>>=◌}
use yerp.Prelude.{Bool, Option, false, none, not, some, ℕ, ◌==◌}
use yerp.Util.Str.{strlen}

-- What `response` points to: its field `revision`, and the others.
pub record Response {ℓ} (A : Type ℓ) : Type ℓ where
  pub response_revision : ℕ
  pub answer : A

-- `request.response`; `none` is the null pointer that the program starts with.
abbrev pub Request {ℓ} : Type ℓ → Type ℓ
Request A = Option (Response A)

-- `request.response != nullptr && request.response->revision != 0`
abbrev pub answered {ℓ} : {A : Type ℓ} → Request A → Bool
answered none = false
answered (some r) = not (r.response_revision == 0)

-- What a pointer leads to; to follow a null pointer is a fault.
abbrev pub follow {ℓ} : {A : Type ℓ} → Option A → Outcome A
follow none = fault
follow (some a) = done a

-- `request.response->` field
abbrev pub field {ℓ κ} : {A : Type ℓ} {B : Type κ} → Request A → (A → B) → Outcome B
field request get = do r ← follow request; done (get r.answer)

-- `request.response->revision != 0`, with no test of the pointer.
abbrev pub has_revision {ℓ} : {A : Type ℓ} → Request A → Outcome Bool
has_revision request = do r ← follow request; done (not (r.response_revision == 0))

-- `{ p, __builtin_strlen( p ) }`
abbrev pub text_at : ℕ → Memory → Ptr → Outcome StringView
text_at f m p = do n ← strlen f m p; done (record { view_data = p; view_size = n })
