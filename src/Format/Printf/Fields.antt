-- ===== src/Format/Printf/Fields.antt =====
-- What `printf` makes of a text with fields.
use mathlib.Core.List.{append_assoc, nil≢cons}
use yerp.Format.Print.{put_char, puts}
use yerp.Format.Printf.{Arg, print_with_spec, printf, scan_spec}
use yerp.Memory.{Memory, Outcome, Ptr, done, fault, load-eq, out_of_fuel, ◌>>=◌}
use yerp.Memory.Text.{IsCStr, IsCStr-suffix, nonzero}
use yerp.Prelude.{
  All, List, [], ap, arith, false, inl, inr, length, refl, suc, sym, take, zero, ℕ, ◌++◌, ◌+◌, ◌<◌,
  ◌==◌, ◌∙◌, ◌∷◌, ◌≡◌, ◌⊎◌,
}

-- A text with a carriage return before each line feed.
abbrev pub crlf : List ℕ → List ℕ
crlf [] = []
crlf (x ∷ xs) = put_char x ++ crlf xs

-- No byte of the text is `c`.
abbrev pub Without : ℕ → List ℕ → Type 0
Without c xs = All (λ x. (x == c) ≡ false) xs

pub puts-crlf :
    (f : ℕ) (m : Memory) (s : Ptr) (xs : List ℕ)
    → IsCStr m s xs
    → length xs < f
    → puts f m s ≡ done (crlf xs)
unfolding puts
puts-crlf zero m s xs h fuel = absurd (omega arith)
puts-crlf (suc f) m s [] h fuel = rw (load-eq m s 0 h)
puts-crlf (suc f) m s (x ∷ xs) h fuel =
    rw (load-eq m s x h.0, nonzero x h.1, puts-crlf f m (s + 1) xs h.3 (omega arith))

scan_spec-eq :
    (f : ℕ) (m : Memory) (p : Ptr) (spec rest : List ℕ)
    → IsCStr m p (spec ++ b'}' ∷ rest)
    → Without b'}' spec
    → length spec < f
    → scan_spec f m p ≡ done (spec, p + length spec + 1)
unfolding scan_spec
scan_spec-eq zero m p spec rest h plain fuel = absurd (omega arith)
scan_spec-eq (suc f) m p [] rest h plain fuel =
    let e : p + 0 + 1 ≡ p + 1 = omega arith in rw (load-eq m p b'}' h.0, e)
scan_spec-eq (suc f) m p (x ∷ spec) rest h plain fuel =
    let e : p + 1 + length spec + 1 ≡ p + suc (length spec) + 1 = omega arith in
    rw (
      load-eq m p x h.0,
      nonzero x h.1,
      plain.0,
      scan_spec-eq f m (p + 1) spec rest h.3 plain.1 (omega arith),
      e,
    )

-- The characters `xs` put before what `r` puts.
abbrev pub after : List ℕ → Outcome (List ℕ) → Outcome (List ℕ)
after xs r = r >>= λ out. done (xs ++ out)

after-append : (xs ys : List ℕ) (r : Outcome (List ℕ)) → after xs (after ys r) ≡ after (xs ++ ys) r
after-append xs ys (done zs) = rw (append_assoc xs ys zs)
after-append xs ys fault = refl
after-append xs ys out_of_fuel = refl

-- The characters of a field and of what follows it.
abbrev pub field_then : Outcome (List ℕ) → Outcome (List ℕ) → Outcome (List ℕ)
field_then field r = field >>= λ out. after out r

after-nil : (r : Outcome (List ℕ)) → after [] r ≡ r
after-nil (done zs) = refl
after-nil fault = refl
after-nil out_of_fuel = refl

-- The text up to the first brace is put.
printf-text :
    (f : ℕ) (m : Memory) (p : Ptr) (text rest : List ℕ) (v : Arg) (vs : List Arg)
    → IsCStr m p (text ++ rest)
    → Without b'{' text
    → printf (length text + f) m p (v ∷ vs)
      ≡ after (crlf text) (printf f m (p + length text) (v ∷ vs))
unfolding printf
printf-text f m p [] rest v vs h plain =
    let no_fuel : 0 + f ≡ f = omega arith in
    let at : p + 0 ≡ p = omega arith in rw (no_fuel, at) (sym (after-nil (printf f m p (v ∷ vs))))
printf-text f m p (x ∷ text) rest v vs h plain =
    let fuel : suc (length text) + f ≡ suc (length text + f) = omega arith in
    let at : p + suc (length text) ≡ p + 1 + length text = omega arith in
    rw
      (
        fuel,
        at,
        load-eq m p x h.0,
        nonzero x h.1,
        plain.0,
        printf-text f m (p + 1) text rest v vs h.3 plain.1,
      )
      (after-append (put_char x) (crlf text) (printf f m (p + 1 + length text) (v ∷ vs)))

-- A field and the text behind it.
abbrev pub braced : List ℕ → List ℕ → List ℕ
braced spec rest = b'{' ∷ (spec ++ b'}' ∷ rest)

-- The byte behind a brace that opens a field is no brace.
printf-brace :
    (f : ℕ) (m : Memory) (p : Ptr) (spec rest : List ℕ) (v : Arg) (vs : List Arg)
    → IsCStr m p (braced spec rest)
    → Without b'{' (take 1 spec)
    → Without b'}' spec
    → length spec < f
    → printf (suc f) m p (v ∷ vs)
      ≡ field_then (print_with_spec f m v spec) (printf f m (p + 1 + length spec + 1) vs)
unfolding printf
printf-brace f m p [] rest v vs h single plain fuel = rw (
  load-eq m p b'{' h.0,
  load-eq m (p + 1) b'}' h.3.0,
  scan_spec-eq f m (p + 1) [] rest h.3 plain fuel,
)
printf-brace f m p (x ∷ spec) rest v vs h single plain fuel = rw (
  load-eq m p b'{' h.0,
  load-eq m (p + 1) x h.3.0,
  single.0,
  scan_spec-eq f m (p + 1) (x ∷ spec) rest h.3 plain fuel,
)

-- `printf` of a text, a field `{spec}` whose specification holds no closing brace and does not
-- begin with an opening one, and a rest puts the text with a carriage return before each line
-- feed, then what `print_with_spec` puts of the first value, then what `printf` puts of the rest
-- with the other values; the text before the field holds no opening brace, and the fuel is for
-- more rounds than the text and the specification have characters.
pub printf-field :
    (f : ℕ) (m : Memory) (p : Ptr) (text spec rest : List ℕ) (v : Arg) (vs : List Arg)
    → IsCStr m p (text ++ braced spec rest)
    → Without b'{' text
    → Without b'{' (take 1 spec)
    → Without b'}' spec
    → length spec < f
    → printf (length text + suc f) m p (v ∷ vs)
      ≡ after (crlf text) (
          field_then
            (print_with_spec f m v spec)
            (printf f m (p + length text + 1 + length spec + 1) vs))
printf-field f m p text spec rest v vs h plain single plain_spec fuel =
    printf-text (suc f) m p text (braced spec rest) v vs h plain
    ∙ ap (after (crlf text)) (
        printf-brace f m (p + length text) spec rest v vs
          (IsCStr-suffix m p text (braced spec rest) h) single plain_spec fuel)

-- A text without an opening brace is put in full, with a carriage return before each line feed,
-- whatever values are left over; with no value left a text is put in full even when it holds
-- braces. The fuel is for more rounds than the text has characters.
pub printf-plain :
    (f : ℕ) (m : Memory) (p : Ptr) (text : List ℕ) (vs : List Arg)
    → IsCStr m p text
    → Without b'{' text ⊎ (vs ≡ [])
    → length text < f
    → printf f m p vs ≡ done (crlf text)
unfolding printf
printf-plain f m p text [] h plain fuel = puts-crlf f m p text h fuel
printf-plain f m p text (v ∷ vs) h (inr none_left) fuel = absurd (nil≢cons (sym none_left))
printf-plain zero m p text (v ∷ vs) h (inl plain) fuel = absurd (omega arith)
printf-plain (suc f) m p [] (v ∷ vs) h (inl plain) fuel = rw (load-eq m p 0 h)
printf-plain (suc f) m p (x ∷ text) (v ∷ vs) h (inl plain) fuel = rw (
  load-eq m p x h.0,
  nonzero x h.1,
  plain.0,
  printf-plain f m (p + 1) text (v ∷ vs) h.3 (inl plain.1) (omega arith),
)
