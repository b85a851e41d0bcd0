-- ===== src/Logger/Tests.antt =====
-- The log on concrete tables.
use tools_on_linux.Logger.Macros.{Place, log_cat, log, log-Prints, debug}
use tools_on_linux.Logger.File.{owned, OpensOne, LogFile}
use tools_on_linux.Logger.Opening.{set_files-no_retry, set_files-OpensOne, set_files}
use tools_on_linux.Logger.Removing.{logger_init-IsCounted}
use tools_on_linux.Logger.Tags.{add_tag-Registers, Registers, IsCounted}
use tools_on_linux.Prelude.{◌≡◌, ◌∷◌, ◌++◌, [], refl, false, none, some, arith}
use tools_on_linux.Prelude.Int.{ℤ, pos}
use tools_on_linux.Prelude.Outcome.{ok}
use tools_on_linux.Logger.State.{
  Text, logger_set_user_tag, logger_init, log_print, add_tag, Logger, time, thread_ids, tag_text,
  message, logger_set_level,
}

abbrev fresh : Logger
fresh = record { active_level = pos 2; user_tags = []; active_user_tag = 0; initialised = false }

abbrev begun : Logger
begun = logger_init fresh

begun-IsCounted : IsCounted begun
begun-IsCounted = logger_init-IsCounted fresh refl

add_tag-Registers_example :
    (c : ℤ) × (r : Logger) × (logger_set_user_tag 5 (some (81 ∷ 82 ∷ [])) begun ≡ ok c r)
    × IsCounted r
    × Registers (81 ∷ 82 ∷ []) begun c r
add_tag-Registers_example = add_tag-Registers 5 (81 ∷ 82 ∷ []) begun begun-IsCounted (omega arith)

-- The category returned is that of the first entry, and logPrint writes its tag.
registered_line :
    (r : Logger) × (logger_set_user_tag 5 (some (81 ∷ [])) begun ≡ ok (pos 0) r)
    × (log_print (pos 0) (pos 1) [] r ≡ time ∷ tag_text (81 ∷ []) ∷ message [] ∷ [])
unfolding logger_set_user_tag add_tag log_print logger_init
registered_line = (_, refl, refl)

-- The names "a" and "b".
abbrev name_a : Text
name_a = 97 ∷ []

abbrev name_b : Text
name_b = 98 ∷ []

set_files-OpensOne_example :
    (l : LogFile) × (set_files
        ((some name_a, some 4) ∷ (some name_b, some 5) ∷ (none, none) ∷ [])
        (owned none [])
      ≡ ok tt l)
    × OpensOne l
set_files-OpensOne_example =
    set_files-OpensOne ((some name_a, some 4) ∷ (some name_b, some 5) ∷ (none, none) ∷ []) none []
      (omega arith, (omega arith, (tt, tt)))

set_files-no_retry_example :
    set_files
      ((some name_a, none) ∷ (none, none) ∷ (some name_a, some 6) ∷ [])
      (owned (some 4) name_b)
    ≡ ok tt (owned none name_a)
set_files-no_retry_example =
    set_files-no_retry name_a (some 4) name_b ((none, none) ∷ (some name_a, some 6) ∷ [])
      (omega arith) refl (refl, tt)

-- The label, a blank and the text.
abbrev short : Text → Place → Text → Text
short label place text = label ++ 32 ∷ text

log-Prints_example :
    (log_cat short debug (pos 0) (81 ∷ []) (logger_set_level (pos 9) begun)
      ≡ time ∷ thread_ids ∷ message (68 ∷ 69 ∷ 66 ∷ 85 ∷ 71 ∷ 32 ∷ 81 ∷ []) ∷ [])
    × (log short debug (81 ∷ []) (logger_set_level (pos 9) begun)
        ≡ time ∷ thread_ids ∷ message (68 ∷ 69 ∷ 66 ∷ 85 ∷ 71 ∷ 32 ∷ 81 ∷ []) ∷ [])
unfolding logger_init
log-Prints_example = log-Prints short debug (pos 9) (pos 0) (81 ∷ []) begun
