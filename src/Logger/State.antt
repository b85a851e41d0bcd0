-- ===== src/Logger/State.antt =====
-- The globals of Logger.cpp and the functions on them. Those on the table run under g_mutext.
use tools_on_linux.Prelude.{
  ℕ, zero, suc, ◌+◌, ◌-◌, ◌%◌, ◌^◌, Bool, true, false, ◌&&◌, not, Option, none, some, List, [], ◌∷◌,
  ◌==◌, ltb, leb, if◌then◌else◌, length, get_elem?,
}
use tools_on_linux.Prelude.Int.{ℤ, pos, negsuc, leb_ℤ, ltb_ℤ}
use tools_on_linux.Prelude.Outcome.{Outcome, ok, fault}

abbrev pub max_user_tag : ℕ
max_user_tag = 8

abbrev pub max_tag_length : ℕ
max_tag_length = 64

-- (size_t)-1
abbrev pub no_object : ℕ
no_object = 2 ^ 64 - 1

abbrev pub Text : Type 0
Text = List ℕ

pub record UserTag : Type 0 where
  pub object : ℕ
  pub tag : Text
  pub active : Bool

pub record Logger : Type 0 where
  pub active_level : ℤ
  pub user_tags : List UserTag
  pub active_user_tag : ℕ
  pub initialised : Bool

-- An entry that is not in use.
abbrev pub free_tag : UserTag
free_tag = record { object = no_object; tag = []; active = false }

abbrev pub free_tags : ℕ → List UserTag
free_tags zero = []
free_tags (suc n) = free_tag ∷ free_tags n

unfoldable pub logger_init : Logger → Logger
logger_init l =
    if l.initialised
    then l
    else record l { initialised = true; active_user_tag = 0; user_tags = free_tags max_user_tag }

unfoldable pub logger_set_level : ℤ → Logger → Logger
logger_set_level level l = record l {
  active_level =
      if leb_ℤ level (pos 0) then pos 0 else if ltb_ℤ (pos 6) level then pos 6 else level;
}

unfoldable pub logger_get_level : Logger → ℤ
logger_get_level l = l.active_level

-- What the tag is after the store: strcpy for a short text; the strncmp for a long one stores nothing.
abbrev pub copy_tag : Text → Text → Text
copy_tag old text = if leb (length text) max_tag_length then text else old

abbrev pub behind : UserTag → Option (ℕ × List UserTag) → Option (ℕ × List UserTag)
behind s none = none
behind s (some (i, ss)) = some (i + 1, s ∷ ss)

-- The first loop: the first entry not in use.
unfoldable pub add_tag : ℕ → Text → List UserTag → Option (ℕ × List UserTag)
add_tag object text [] = none
add_tag object text (s ∷ ss) =
    if s.active
    then behind s (add_tag object text ss)
    else some (0, record { object = object; tag = copy_tag s.tag text; active = true } ∷ ss)

-- The second loop: the first entry of the object.
unfoldable pub remove_tag : ℕ → List UserTag → Option (ℕ × List UserTag)
remove_tag object [] = none
remove_tag object (s ∷ ss) =
    if s.object == object then some (0, free_tag ∷ ss) else behind s (remove_tag object ss)

-- `found` and the table with the counter changed, or -1.
abbrev pub store_tags : Option (ℕ × List UserTag) → ℕ → Logger → Outcome Logger ℤ
store_tags none n l = ok (negsuc 0) l
store_tags (some (i, ss)) n l = ok (pos i) (record l { user_tags = ss; active_user_tag = n })

-- A text of exactly MAX_TAG_LENGTH characters is copied with its terminator behind the array, which
-- is a fault.
abbrev pub overflows : Text → Option (ℕ × List UserTag) → Bool
overflows text none = false
overflows text (some r) = length text == max_tag_length

unfoldable pub logger_set_user_tag : ℕ → Option Text → Logger → Outcome Logger ℤ
logger_set_user_tag object none l =
    store_tags (remove_tag object l.user_tags) ((l.active_user_tag + 2 ^ 32 - 1) % 2 ^ 32) l
logger_set_user_tag object (some text) l =
    let slot = add_tag object text l.user_tags in
    if overflows text slot then fault else store_tags slot ((l.active_user_tag + 1) % 2 ^ 32) l

-- What logPrint writes, in order.
pub data Output : Type 0 where
  time thread_ids : Output
  tag_text : Text → Output
  message : Text → Output

abbrev pub tag_output : Option UserTag → Output
tag_output none = thread_ids
tag_output (some s) = if s.active then tag_text s.tag else thread_ids

-- The tag of the category, where there is one.
abbrev pub origin : ℤ → Logger → Output
origin (negsuc n) l = thread_ids
origin (pos c) l =
    if not (l.active_user_tag == 0) && ltb c max_user_tag
    then tag_output (get_elem? l.user_tags c)
    else thread_ids

unfoldable pub log_print : ℤ → ℤ → Text → Logger → List Output
log_print category level text l =
    if leb_ℤ level l.active_level then time ∷ origin category l ∷ message text ∷ [] else []
