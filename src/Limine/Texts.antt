-- ===== src/Limine/Texts.antt =====
-- The members of kernel/Source/core/limine.hh that return a text.
use yerp.Ktl.StringView.{StringView, empty_view}
use yerp.Ktl.StringView.Part.{Views}
use yerp.Limine.{text_at}
use yerp.Limine.Files.{
  LimineFile, executable_file, executable_path, executable_string, file_available,
}
use yerp.Limine.Loader.{BootloaderInfo, bootloader_available, bootloader_name, bootloader_version}
use yerp.Memory.{Memory, Ptr, done, nullptr}
use yerp.Memory.Text.{Holds, IsCStr}
use yerp.Prelude.{
  List, Option, [], arith, false, length, none, refl, some, suc, ℕ, ◌+◌, ◌<◌, ◌==◌, ◌∷◌, ◌≡◌,
}
use yerp.Util.Str.Length.{strlen-length}

pub Holds-of_IsCStr : (m : Memory) (p : Ptr) (xs : List ℕ) → IsCStr m p xs → Holds m p xs
Holds-of_IsCStr m p [] h = tt
Holds-of_IsCStr m p (x ∷ xs) h = (h.0, Holds-of_IsCStr m (p + 1) xs h.3)

-- `{ p, strlen( p ) }` is the text at `p`.
pub text_at-Views :
    (f : ℕ) (m : Memory) (p : Ptr) (xs : List ℕ)
    → IsCStr m p xs
    → length xs < f
    → (v : StringView) × (text_at f m p ≡ done v) × Views m v xs
text_at-Views f m p xs h fuel = (
  record { view_data = p; view_size = length xs },
  rw (strlen-length f m p xs h fuel),
  (Holds-of_IsCStr m p xs h, refl),
)

-- When the bootloader's answer names two strings that are shorter than the fuel, `name` and
-- `version` of `BootloaderInfo` return views over these strings if the revision is not 0, and the
-- empty view if it is 0 or there is no answer.
pub bootloader_texts-Views :
    (f : ℕ) (m : Memory) (revision : ℕ) (a : BootloaderInfo) (xs ys : List ℕ)
    → IsCStr m a.loader_name xs
    → IsCStr m a.loader_version ys
    → length xs < f
    → length ys < f
    → ((v w : StringView) × (bootloader_name f m
            (some (record { response_revision = suc revision; answer = a }))
          ≡ done v)
        × (bootloader_version f m (some (record { response_revision = suc revision; answer = a }))
            ≡ done w)
        × Views m v xs
        × Views m w ys)
      × (bootloader_name f m (some (record { response_revision = 0; answer = a }))
          ≡ done empty_view)
      × (bootloader_version f m (some (record { response_revision = 0; answer = a }))
          ≡ done empty_view)
      × (bootloader_name f m none ≡ done empty_view)
      × (bootloader_version f m none ≡ done empty_view)
unfolding bootloader_name bootloader_version bootloader_available
bootloader_texts-Views f m revision a xs ys hx hy fx fy =
    let revised : (suc revision == 0) ≡ false = ground arith in
    let (v, name_run, name_views) = text_at-Views f m a.loader_name xs hx fx in
    let (w, version_run, version_views) = text_at-Views f m a.loader_version ys hy fy in
    (
      (v, w, rw (revised, name_run), rw (revised, version_run), name_views, version_views),
      refl,
      refl,
      refl,
      refl,
    )

-- `path` and `string` of `ExecutableFileInfo` return views over the two strings of the file that
-- the bootloader's answer leads to, when the revision is not 0, the pointer to the file is not null
-- and the strings are shorter than the fuel. They return the empty view when there is no answer,
-- when its revision is 0 and when the pointer to the file is null.
pub executable_texts-Views :
    (f : ℕ) (m : Memory) (files : Ptr → Option LimineFile) (revision file : ℕ) (at : LimineFile)
    (xs ys : List ℕ)
    → 0 < file
    → files file ≡ some at
    → IsCStr m at.file_path xs
    → IsCStr m at.file_string ys
    → length xs < f
    → length ys < f
    → ((v w : StringView) × (executable_path f m files
            (some (record { response_revision = suc revision; answer = file }))
          ≡ done v)
        × (executable_string f m files
              (some (record { response_revision = suc revision; answer = file }))
            ≡ done w)
        × Views m v xs
        × Views m w ys)
      × (executable_path f m files none ≡ done empty_view)
      × (executable_string f m files none ≡ done empty_view)
      × (executable_path f m files (some (record { response_revision = 0; answer = file }))
          ≡ done empty_view)
      × (executable_string f m files (some (record { response_revision = 0; answer = file }))
          ≡ done empty_view)
      × (executable_path f m files
            (some (record { response_revision = suc revision; answer = nullptr }))
          ≡ done empty_view)
      × (executable_string f m files
            (some (record { response_revision = suc revision; answer = nullptr }))
          ≡ done empty_view)
unfolding executable_path executable_string file_available executable_file
executable_texts-Views f m files revision file at xs ys there found_at hx hy fx fy =
    let revised : (suc revision == 0) ≡ false = ground arith in
    let not_null : (file == 0) ≡ false = ground arith in
    let (v, path_run, path_views) = text_at-Views f m at.file_path xs hx fx in
    let (w, string_run, string_views) = text_at-Views f m at.file_string ys hy fy in
    (
      (
        v,
        w,
        rw (revised, not_null, found_at, path_run),
        rw (revised, not_null, found_at, string_run),
        path_views,
        string_views,
      ),
      refl,
      refl,
      refl,
      refl,
      rw revised,
      rw revised,
    )
