-- ===== src/Logger/File.antt =====
-- Logger_set_file of Logger.cpp: the log file, and which files are open.
use tools_on_linux.Prelude.{
  ℕ, ◌<◌, ◌≡◌, Bool, true, false, ◌&&◌, Option, none, some, List, [], ◌∷◌, ◌==◌, ltb, if◌then◌else◌,
  length,
}
use tools_on_linux.Prelude.Outcome.{Outcome, Program, ok, fault, pure, get, modify, ◌>>=◌, ◌>>◌}
use tools_on_linux.Logger.State.{Text}

abbrev pub max_filename_length : ℕ
max_filename_length = 128

-- A FILE that fopen gave; `none` is stderr.
abbrev pub Stream : Type 0
Stream = Option ℕ

-- `open_files` are those that fopen gave and fclose has not taken.
pub record LogFile : Type 0 where
  pub fd : Stream
  pub file_name : Text
  pub open_files : List ℕ

-- strcmp gives 0.
abbrev pub same_text : Text → Text → Bool
same_text [] [] = true
same_text [] (b ∷ ys) = false
same_text (a ∷ xs) [] = false
same_text (a ∷ xs) (b ∷ ys) = a == b && same_text xs ys

abbrev pub removed : ℕ → List ℕ → Option (List ℕ)
removed f [] = none
removed f (g ∷ gs) =
    if f == g then some gs else elim (removed f gs) [ none ↦ none | some hs ↦ some (g ∷ hs) ]

-- The files left open; to close one that is not open is a fault.
abbrev pub still_open : LogFile → Option (List ℕ) → Outcome LogFile (Unit {0})
still_open l none = fault
still_open l (some fs) = ok tt (record l { open_files = fs })

unfoldable pub fclose : ℕ → Program LogFile (Unit {0})
fclose f l = still_open l (removed f l.open_files)

-- `if (g_fd != stderr) { fclose(g_fd); g_fd = stderr; ... }`
unfoldable pub close_file : Program LogFile Bool
close_file = do
  l ← get
  elim l.fd [
    | none ↦ pure false
    | some f ↦ do fclose f; modify (λ s. record s { fd = none }); pure true
  ]

-- strcpy into g_fileName; a name that does not fit with its terminator is written past the array.
unfoldable pub copy_name : Text → Program LogFile (Unit {0})
copy_name path l =
    if ltb (length path) max_filename_length then ok tt (record l { file_name = path }) else fault

-- `opened` is what fopen gives.
unfoldable pub open_file : Option ℕ → Program LogFile (Unit {0})
open_file none = pure tt
open_file (some f) = modify (λ l. record l { fd = some f; open_files = f ∷ l.open_files })

unfoldable pub logger_set_file : Option Text → Option ℕ → Program LogFile (Unit {0})
logger_set_file none opened = do
  closed ← close_file
  if closed then modify (λ l. record l { file_name = [] }) else pure tt
logger_set_file (some path) opened = do
  l ← get
  if same_text l.file_name path
      then pure tt
      else (do copy_name path; _ ← close_file; open_file opened)

-- Exactly the log file is open.
abbrev pub files : Stream → List ℕ
files none = []
files (some f) = f ∷ []

abbrev pub OpensOne : LogFile → Type 0
OpensOne l = l.open_files ≡ files l.fd

-- The names that fit.
abbrev pub Fits : Option Text → Type 0
Fits none = Unit {0}
Fits (some path) = length path < max_filename_length

abbrev pub owned : Stream → Text → LogFile
owned fd name = record { fd = fd; file_name = name; open_files = files fd }

-- What a call makes of the log file and its name.
abbrev pub next_file : Option Text → Option ℕ → Stream → Text → LogFile
next_file none opened none name = owned none name
next_file none opened (some f) name = owned none []
next_file (some path) opened fd name =
    if same_text name path then owned fd name else owned opened path
