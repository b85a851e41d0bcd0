-- ===== src/Logger/Macros.antt =====
-- The levels and the macros of Logger.h. `format` puts a message behind a label, the tag, where the macro
-- stands and the line, as the format strings say.
use tools_on_linux.Prelude.{ℕ, ◌≤◌, List, [], ◌∷◌, leb, if◌then◌else◌, ◌≡◌, refl, arith}
use tools_on_linux.Prelude.Int.{ℤ, pos, negsuc, pos_part, leb_ℤ, ltb_ℤ}
use tools_on_linux.Logger.State.{
  Logger, Text, Output, time, message, thread_ids, origin, log_print, logger_set_level,
}

abbrev pub log_level_fatal : ℤ
log_level_fatal = pos 0

abbrev pub log_level_error : ℤ
log_level_error = pos 0

abbrev pub log_level_warning : ℤ
log_level_warning = pos 1

abbrev pub log_level_info : ℤ
log_level_info = pos 2

abbrev pub log_level_debug : ℤ
log_level_debug = pos 3

abbrev pub log_level_trace1 : ℤ
log_level_trace1 = pos 4

abbrev pub log_level_trace2 : ℤ
log_level_trace2 = pos 5

abbrev pub log_level_trace3 : ℤ
log_level_trace3 = pos 6

abbrev pub no_categery : ℤ
no_categery = negsuc 0

-- INT_FATAL to INT_TRACE4, which differ in their labels and in the level that they hand to logPrint.
pub data IntMacro : Type 0 where
  int_fatal int_error int_warning int_info int_debug : IntMacro
  int_trace1 int_trace2 int_trace3 int_trace4 : IntMacro

unfoldable pub level_of : IntMacro → ℤ
level_of int_fatal = log_level_fatal
level_of int_error = log_level_fatal
level_of int_warning = log_level_warning
level_of int_info = log_level_info
level_of int_debug = log_level_debug
level_of int_trace1 = log_level_trace1
level_of int_trace2 = log_level_trace2
level_of int_trace3 = log_level_trace3
level_of int_trace4 = log_level_trace3

-- The label at the head of each format string, up to its colon.
unfoldable pub label_of : IntMacro → Text
label_of int_fatal = 70 ∷ 65 ∷ 84 ∷ 65 ∷ 76 ∷ []
label_of int_error = 69 ∷ 82 ∷ 82 ∷ 79 ∷ 82 ∷ []
label_of int_warning = 32 ∷ 87 ∷ 65 ∷ 82 ∷ 78 ∷ []
label_of int_info = 32 ∷ 73 ∷ 78 ∷ 70 ∷ 79 ∷ []
label_of int_debug = 68 ∷ 69 ∷ 66 ∷ 85 ∷ 71 ∷ []
label_of int_trace1 = 84 ∷ 82 ∷ 65 ∷ 67 ∷ 69 ∷ 49 ∷ []
label_of int_trace2 = 84 ∷ 82 ∷ 65 ∷ 67 ∷ 69 ∷ 50 ∷ []
label_of int_trace3 = 84 ∷ 82 ∷ 65 ∷ 67 ∷ 69 ∷ 51 ∷ []
label_of int_trace4 = 84 ∷ 82 ∷ 65 ∷ 67 ∷ 69 ∷ 52 ∷ []

-- What stands for the caller in the message: __func__ or __FILE__.
pub data Place : Type 0 where
  func file : Place

unfoldable pub place_of : IntMacro → Place
place_of int_fatal = func
place_of int_error = func
place_of int_warning = func
place_of int_info = func
place_of int_debug = func
place_of int_trace1 = func
place_of int_trace2 = func
place_of int_trace3 = func
place_of int_trace4 = file

-- FATAL to TRACE3, and FATAL_CAT to TRACE3_CAT.
pub data Macro : Type 0 where
  fatal error warning info debug trace1 trace2 trace3 : Macro

unfoldable pub expands_to : Macro → IntMacro
expands_to fatal = int_fatal
expands_to error = int_error
expands_to warning = int_warning
expands_to info = int_info
expands_to debug = int_debug
expands_to trace1 = int_trace1
expands_to trace2 = int_trace2
expands_to trace3 = int_trace3

-- What the comment on Logger_set_level says: the lowest level at which a macro prints.
abbrev pub documented : Macro → ℕ
documented fatal = 0
documented error = 0
documented warning = 1
documented info = 2
documented debug = 3
documented trace1 = 4
documented trace2 = 5
documented trace3 = 6

-- A macro's own name as its label, put right in five columns.
abbrev pub own_label : Macro → Text
own_label fatal = 70 ∷ 65 ∷ 84 ∷ 65 ∷ 76 ∷ []
own_label error = 69 ∷ 82 ∷ 82 ∷ 79 ∷ 82 ∷ []
own_label warning = 32 ∷ 87 ∷ 65 ∷ 82 ∷ 78 ∷ []
own_label info = 32 ∷ 73 ∷ 78 ∷ 70 ∷ 79 ∷ []
own_label debug = 68 ∷ 69 ∷ 66 ∷ 85 ∷ 71 ∷ []
own_label trace1 = 84 ∷ 82 ∷ 65 ∷ 67 ∷ 69 ∷ 49 ∷ []
own_label trace2 = 84 ∷ 82 ∷ 65 ∷ 67 ∷ 69 ∷ 50 ∷ []
own_label trace3 = 84 ∷ 82 ∷ 65 ∷ 67 ∷ 69 ∷ 51 ∷ []

documented_bound : (m : Macro) → documented m ≤ 6
documented_bound fatal = omega arith
documented_bound error = omega arith
documented_bound warning = omega arith
documented_bound info = omega arith
documented_bound debug = omega arith
documented_bound trace1 = omega arith
documented_bound trace2 = omega arith
documented_bound trace3 = omega arith

-- The test of logPrint after Logger_set_level.
level-set :
    (n : ℤ) (d : ℕ)
    → d ≤ 6
    → leb_ℤ (pos d) (if leb_ℤ n (pos 0) then pos 0 else if ltb_ℤ (pos 6) n then pos 6 else n)
      ≡ leb d (pos_part n)
level-set (pos n) d small = ground arith
level-set (negsuc n) d small = ground arith

origin-set_level :
    (n category : ℤ) (l : Logger) → origin category (logger_set_level n l) ≡ origin category l
unfolding logger_set_level
origin-set_level n (pos c) l = refl
origin-set_level n (negsuc c) l = refl

module _ (format : Text → Place → Text → Text) where
  unfoldable pub log_int : IntMacro → ℤ → Text → Logger → List Output
  unfolding level_of label_of place_of
  log_int m category text l =
      log_print category (level_of m) (format (label_of m) (place_of m) text) l

  unfoldable pub log_cat : Macro → ℤ → Text → Logger → List Output
  unfolding log_int expands_to
  log_cat m category text l = log_int (expands_to m) category text l

  unfoldable pub log : Macro → Text → Logger → List Output
  unfolding log_int expands_to
  log m text l = log_int (expands_to m) no_categery text l

  level-documented : (m : Macro) → level_of (expands_to m) ≡ pos (documented m)
  unfolding level_of expands_to
  level-documented fatal = refl
  level-documented error = refl
  level-documented warning = refl
  level-documented info = refl
  level-documented debug = refl
  level-documented trace1 = refl
  level-documented trace2 = refl
  level-documented trace3 = refl

  label-own : (m : Macro) → label_of (expands_to m) ≡ own_label m
  unfolding label_of expands_to
  label-own fatal = refl
  label-own error = refl
  label-own warning = refl
  label-own info = refl
  label-own debug = refl
  label-own trace1 = refl
  label-own trace2 = refl
  label-own trace3 = refl

  place-func : (m : Macro) → place_of (expands_to m) ≡ func
  unfolding place_of expands_to
  place-func fatal = refl
  place-func error = refl
  place-func warning = refl
  place-func info = refl
  place-func debug = refl
  place-func trace1 = refl
  place-func trace2 = refl
  place-func trace3 = refl

  -- After Logger_set_level each macro prints exactly where the level set reaches the one documented for
  -- it: FATAL and ERROR always, since no level is below 0. A line has the time, what stands for the
  -- caller (the tag of the category, where one is given and in use, and the thread otherwise), and the
  -- message behind the macro's own name, the name of the function, and the line.
  pub log-Prints :
      (m : Macro) (n category : ℤ) (text : Text) (l : Logger)
      → let r = logger_set_level n l in
        let line = λ (who : Output).
          if leb (documented m) (pos_part n)
          then time ∷ who ∷ message (format (own_label m) func text) ∷ []
          else [] in
        (log_cat m category text r ≡ line (origin category l)) × (log m text r ≡ line thread_ids)
  unfolding log_cat log log_print logger_set_level
  log-Prints m n category text l =
      let test = level-set n (documented m) (documented_bound m) in
      (
        rw (level-documented m, label-own m, place-func m, test, origin-set_level n category l)
            refl,
        rw (level-documented m, label-own m, place-func m, test) refl,
      )
