-- ===== src/Limine/Framebuffer.antt =====
-- `Framebuffer` of kernel/Source/core/limine.hh. A `limine_framebuffer` stands in `framebuffer`,
-- which gives what a pointer leads to.
use yerp.Limine.{Request, answered, field, follow}
use yerp.Memory.{Outcome, Ptr, done, nullptr, ◌>>=◌}
use yerp.Prelude.{
  Bool, Option, false, if◌then◌else◌, leb, ltb, none, not, some, ℕ, ◌%◌, ◌&&◌, ◌*◌, ◌^◌,
}

pub record LimineFramebuffer : Type 0 where
  pub fb_address : Ptr
  pub fb_width : ℕ
  pub fb_height : ℕ
  pub fb_pitch : ℕ
  pub fb_bpp : ℕ
  pub fb_memory_model : ℕ
  pub fb_mode_count : ℕ
  pub fb_modes : Ptr

-- The array `framebuffers` is a function from indices to its elements.
pub record Framebuffers : Type 0 where
  pub answered_framebuffers : ℕ → Ptr
  pub framebuffer_total : ℕ

unfoldable pub framebuffer_available : Request Framebuffers → Bool
framebuffer_available none = false
framebuffer_available (some r) = answered (some r) && ltb 0 r.answer.framebuffer_total

unfoldable pub framebuffer_count : Request Framebuffers → Outcome ℕ
unfolding framebuffer_available
framebuffer_count request =
    if not (framebuffer_available request) then done 0 else field request (λ a. a.framebuffer_total)

-- `none` is the empty slice `{ }`, and otherwise a slice is its array and its length.
unfoldable pub framebuffers : Request Framebuffers → Outcome (Option ((ℕ → Ptr) × ℕ))
unfolding framebuffer_available
framebuffers request =
    if not (framebuffer_available request)
    then done none
    else field request (λ a. some (a.answered_framebuffers, a.framebuffer_total))

-- The pointer `fb` of the `FB` that is returned.
unfoldable pub framebuffer_at : Request Framebuffers → ℕ → Outcome Ptr
unfolding framebuffer_count
framebuffer_at request idx = do
  count ← framebuffer_count request
  if leb count idx then done nullptr else field request (λ a. a.answered_framebuffers idx)

-- The members of `FB`, which follow its pointer.
module _ (framebuffer : Ptr → Option LimineFramebuffer) where
  unfoldable pub width : Ptr → Outcome ℕ
  width fb = do b ← follow (framebuffer fb); done b.fb_width

  unfoldable pub height : Ptr → Outcome ℕ
  height fb = do b ← follow (framebuffer fb); done b.fb_height

  unfoldable pub pitch : Ptr → Outcome ℕ
  pitch fb = do b ← follow (framebuffer fb); done b.fb_pitch

  unfoldable pub bpp : Ptr → Outcome ℕ
  bpp fb = do b ← follow (framebuffer fb); done b.fb_bpp

  unfoldable pub model : Ptr → Outcome ℕ
  model fb = do b ← follow (framebuffer fb); done b.fb_memory_model

  unfoldable pub pixels_address : Ptr → Outcome Ptr
  pixels_address fb = do b ← follow (framebuffer fb); done b.fb_address

  -- `asBytes`: the start and the length of the slice.
  unfoldable pub as_bytes : Ptr → Outcome (Ptr × ℕ)
  as_bytes fb = do
    b ← follow (framebuffer fb)
    done (b.fb_address, b.fb_height * b.fb_pitch % 2 ^ 64)

  unfoldable pub mode_count : Ptr → Outcome ℕ
  mode_count fb = do b ← follow (framebuffer fb); done b.fb_mode_count

  unfoldable pub modes : Ptr → Outcome (Ptr × ℕ)
  modes fb = do b ← follow (framebuffer fb); done (b.fb_modes, b.fb_mode_count)
