-- ===== src/Logger/Opening.antt =====
-- Calls of Logger_set_file one after the other, and the files that are open.
use tools_on_linux.Logger.File.{
  still_open, same_text, owned, open_file, next_file, max_filename_length, logger_set_file, fclose,
  copy_name, close_file, Stream, OpensOne, LogFile, Fits,
}
use tools_on_linux.Prelude.{
  ℕ, ◌<◌, ◌≡◌, Bool, true, false, Option, none, some, List, [], ◌∷◌, ◌==◌, ltb, length, arith, refl,
  if_false, if_true, inl, inr, Bool-cases, ap, ◌∙◌, sym, subst,
}
use tools_on_linux.Prelude.Outcome.{Program, ok, pure, ◌>>◌}
use tools_on_linux.Logger.State.{Text}

fclose-owned :
    (f : ℕ) (name : Text)
    → fclose f (owned (some f) name)
      ≡ ok tt (record { fd = some f; file_name = name; open_files = [] })
unfolding fclose
fclose-owned f name =
    ap
      (λ (r : Option (List ℕ)).
        still_open (record { fd = some f; file_name = name; open_files = f ∷ [] }) r)
      (if_true (f == f) (some []) none (ground arith))

-- Whether a file was closed.
abbrev is_file : Stream → Bool
is_file none = false
is_file (some f) = true

close_file-owned :
    (fd : Stream) (name : Text) → close_file (owned fd name) ≡ ok (is_file fd) (owned none name)
unfolding close_file
close_file-owned none name = refl
close_file-owned (some f) name = rw (fclose-owned f name) refl

opens :
    (path : Text) (opened : Option ℕ)
    → open_file opened (owned none path) ≡ ok tt (owned opened path)
unfolding open_file
opens path none = refl
opens path (some f) = refl

set_file-owned :
    (path : Option Text) (opened : Option ℕ) (fd : Stream) (name : Text)
    → Fits path
    → logger_set_file path opened (owned fd name) ≡ ok tt (next_file path opened fd name)
unfolding logger_set_file copy_name
set_file-owned none opened none name fits = rw (close_file-owned none name) refl
set_file-owned none opened (some f) name fits = rw (close_file-owned (some f) name) refl
set_file-owned (some path) opened fd name fits = elim (Bool-cases (same_text name path)) [
  | inl same ↦ rw same refl
  | inr other ↦
      rw
        (
          other,
          if_true (ltb (length path) max_filename_length) _ _ (ground (arith, fits)),
          close_file-owned fd path,
          opens path opened,
        )
        refl
]

-- Calls of Logger_set_file, each with what fopen gives it.
unfoldable pub set_files : List (Option Text × Option ℕ) → Program LogFile (Unit {0})
set_files [] = pure tt
set_files ((path, opened) ∷ calls) = do logger_set_file path opened; set_files calls

abbrev pub FitAll : List (Option Text × Option ℕ) → Type 0
FitAll [] = Unit {0}
FitAll ((path, opened) ∷ calls) = Fits path × FitAll calls

next_file-owned :
    (path : Option Text) (opened : Option ℕ) (fd : Stream) (name : Text)
    → (fd' : Stream) × (name' : Text) × (next_file path opened fd name ≡ owned fd' name')
next_file-owned none opened none name = (none, name, refl)
next_file-owned none opened (some f) name = (none, [], refl)
next_file-owned (some path) opened fd name = elim (Bool-cases (same_text name path)) [
  | inl same ↦ (fd, name, if_true _ _ _ same)
  | inr other ↦ (opened, path, if_false _ _ _ other)
]

set_files-next :
    (path : Option Text) (opened : Option ℕ) (calls : List (Option Text × Option ℕ)) (fd : Stream)
    (name : Text)
    → Fits path
    → set_files ((path, opened) ∷ calls) (owned fd name)
      ≡ set_files calls (next_file path opened fd name)
unfolding set_files
set_files-next path opened calls fd name fits = rw (set_file-owned path opened fd name fits) refl

-- Whatever names that fit are set, in whatever order, and whether or not fopen succeeds: no call closes
-- a file that is not open, and in the end exactly the log file is open, or none where the log goes to
-- stderr.
pub set_files-OpensOne :
    (calls : List (Option Text × Option ℕ)) (fd : Stream) (name : Text)
    → FitAll calls
    → (l : LogFile) × (set_files calls (owned fd name) ≡ ok tt l) × OpensOne l
unfolding set_files
set_files-OpensOne [] fd name fits = (owned fd name, refl, refl)
set_files-OpensOne ((path, opened) ∷ calls) fd name (fits, others) =
    let (fd', name', e) = next_file-owned path opened fd name in
    let (l, runs, one) = set_files-OpensOne calls fd' name' others in
    (l, set_files-next path opened calls fd name fits ∙ ap (set_files calls) e ∙ runs, one)

-- Calls with that name, or with none.
abbrev pub Repeats : Text → List (Option Text × Option ℕ) → Type 0
Repeats path [] = Unit {0}
Repeats path ((none, opened) ∷ calls) = Repeats path calls
Repeats path ((some again, opened) ∷ calls) = (again ≡ path) × Repeats path calls

same_text_refl : (xs : Text) → same_text xs xs ≡ true
same_text_refl [] = refl
same_text_refl (x ∷ xs) = ground (arith, same_text_refl xs)

Repeats-nothing :
    (path : Text) (calls : List (Option Text × Option ℕ))
    → length path < max_filename_length
    → Repeats path calls
    → set_files calls (owned none path) ≡ ok tt (owned none path)
unfolding set_files
Repeats-nothing path [] fits all = refl
Repeats-nothing path ((none, opened) ∷ calls) fits all =
    set_files-next none opened calls none path tt ∙ Repeats-nothing path calls fits all
Repeats-nothing path ((some again, opened) ∷ calls) fits (same, all) =
    set_files-next (some again) opened calls none path
      (subst (λ t. length t < max_filename_length) (sym same) fits)
    ∙ ap (set_files calls) (if_true _ _ _ (ap (same_text path) same ∙ same_text_refl path))
    ∙ Repeats-nothing path calls fits all

-- After a call whose fopen failed the log goes to stderr, and no number of calls that set the same name
-- or none brings the file back, whatever fopen would give: it is not called again.
pub set_files-no_retry :
    (path : Text) (fd : Stream) (name : Text) (calls : List (Option Text × Option ℕ))
    → length path < max_filename_length
    → same_text name path ≡ false
    → Repeats path calls
    → set_files ((some path, none) ∷ calls) (owned fd name) ≡ ok tt (owned none path)
set_files-no_retry path fd name calls fits other all =
    set_files-next (some path) none calls fd name fits
    ∙ ap (set_files calls) (if_false _ _ _ other)
    ∙ Repeats-nothing path calls fits all
