-- ===== src/Limine/Files.antt =====
-- `ModuleList` and `ExecutableFileInfo` of kernel/Source/core/limine.hh. A `limine_file` stands in
-- `files`, which gives what a pointer leads to.
use yerp.Ktl.StringView.{StringView, empty_view}
use yerp.Limine.{Request, answered, field, follow, has_revision, text_at}
use yerp.Memory.{Memory, Outcome, Ptr, done, nullptr, ◌>>=◌}
use yerp.Prelude.{Bool, Option, false, if◌then◌else◌, leb, ltb, none, not, some, ℕ, ◌==◌}

pub record LimineFile : Type 0 where
  pub file_path : Ptr
  pub file_string : Ptr

-- The array `modules` is a function from indices to its elements.
pub record Modules : Type 0 where
  pub answered_modules : ℕ → Ptr
  pub answered_count : ℕ

-- `available` follows the pointer without a test.
unfoldable pub modules_available : Request Modules → Outcome Bool
modules_available request = do
  revised ← has_revision request
  if revised then field request (λ a. ltb 0 a.answered_count) else done false

unfoldable pub module_count : Request Modules → Outcome ℕ
unfolding modules_available
module_count request = do
  available ← modules_available request
  if not available then done 0 else field request (λ a. a.answered_count)

-- `none` is the empty slice `{ }`, and otherwise a slice is its array and its length.
unfoldable pub modules : Request Modules → Outcome (Option ((ℕ → Ptr) × ℕ))
unfolding modules_available
modules request = do
  available ← modules_available request
  if not available
      then done none
      else field request (λ a. some (a.answered_modules, a.answered_count))

unfoldable pub module_at : Request Modules → ℕ → Outcome Ptr
unfolding module_count
module_at request idx = do
  count ← module_count request
  if leb count idx then done nullptr else field request (λ a. a.answered_modules idx)

-- `file`: the answer is the pointer `executable_file`, of the revisions from 2 on.
unfoldable pub executable_file : Request Ptr → Outcome Ptr
executable_file request = field request (λ p. p)

unfoldable pub file_available : Request Ptr → Outcome Bool
unfolding executable_file
file_available request =
    if answered request
    then (do file ← executable_file request; done (not (file == nullptr)))
    else done false

unfoldable pub executable_path :
    ℕ → Memory → (Ptr → Option LimineFile) → Request Ptr → Outcome StringView
unfolding file_available executable_file
executable_path f m files request = do
  available ← file_available request
  if not available
      then done empty_view
      else (do file ← executable_file request; at ← follow (files file); text_at f m at.file_path)

-- `string`, of the revisions from 3 on.
unfoldable pub executable_string :
    ℕ → Memory → (Ptr → Option LimineFile) → Request Ptr → Outcome StringView
unfolding file_available executable_file
executable_string f m files request = do
  available ← file_available request
  if not available
      then done empty_view
      else (do file ← executable_file request; at ← follow (files file); text_at f m at.file_string)
