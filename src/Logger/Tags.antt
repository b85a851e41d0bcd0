-- ===== src/Logger/Tags.antt =====
-- Logger_set_userTag: the counter of the tags in use, and what logPrint writes for a tag.
use tools_on_linux.Prelude.{
  ne→==_false, not, ◌&&◌, subst, if_true, if_false, ℕ, suc, ◌+◌, ◌%◌, ◌^◌, ◌<◌, ◌≤◌, Bool, true,
  false, Option, none, some, List, [], ◌∷◌, ◌==◌, ltb, leb, length, get_elem?, ◌≡◌, refl, arith,
  inl, inr, Bool-cases, ap, ◌∙◌, sym,
}
use tools_on_linux.Prelude.Int.{ℤ, pos, negsuc, leb_ℤ}
use tools_on_linux.Prelude.Outcome.{ok}
use tools_on_linux.Logger.State.{
  tag_output, UserTag, Logger, Text, add_tag, logger_set_user_tag, log_print, time, tag_text,
  message, behind, copy_tag, no_object, store_tags, overflows, max_user_tag,
}

abbrev pub one_if : Bool → ℕ
one_if true = 1
one_if false = 0

abbrev pub actives : List UserTag → ℕ
actives [] = 0
actives (s ∷ ss) = one_if s.active + actives ss

-- An entry that is not in use belongs to no object.
abbrev pub IsClean : List UserTag → Type 0
IsClean [] = Unit {0}
IsClean (s ∷ ss) = (s.active ≡ false → s.object ≡ no_object) × IsClean ss

-- The invariant of the table.
pub record IsCounted (l : Logger) : Type 0 where
  pub counts : l.active_user_tag ≡ actives l.user_tags
  pub clean : IsClean l.user_tags
  pub size : length l.user_tags ≡ max_user_tag

pub actives_bound : (ss : List UserTag) → actives ss ≤ length ss
actives_bound [] = omega arith
actives_bound (s ∷ ss) = omega (arith, actives_bound ss, bound s.active)
  where
    bound : (b : Bool) → one_if b ≤ 1
    bound true = omega arith
    bound false = omega arith

-- What the first loop comes to.
record Added (ss : List UserTag) (text : Text) (i : ℕ) (rs : List UserTag) : Type 0 where
  counts : actives rs ≡ actives ss + 1
  size : length rs ≡ length ss
  clean : IsClean rs
  bound : i < length ss
  entry : UserTag
  at : get_elem? rs i ≡ some entry
  used : entry.active ≡ true
  tag : leb (length text) 64 ≡ true → entry.tag ≡ text

abbrev AddResult : List UserTag → Text → Option (ℕ × List UserTag) → Type 0
AddResult ss text none = actives ss ≡ length ss
AddResult ss text (some (i, rs)) = Added ss text i rs

one_more : (i : ℕ) → i + 1 ≡ suc i
one_more i = omega arith

behind-Added :
    (s : UserTag) (ss : List UserTag) (text : Text) (o : Option (ℕ × List UserTag))
    → s.active ≡ true
    → AddResult ss text o
    → AddResult (s ∷ ss) text (behind s o)
behind-Added s ss text none on r = omega (arith, ap one_if on, r)
behind-Added s ss text (some (i, rs)) on r = record {
  counts = omega (arith, r.counts);
  size = omega (arith, r.size);
  clean = (λ off. cc, r.clean);
  bound = omega (arith, r.bound);
  entry = r.entry;
  at = next rs i r.entry r.at;
  used = r.used;
  tag = r.tag;
}
  where
    next :
        (rs : List UserTag) (i : ℕ) (e : UserTag)
        → get_elem? rs i ≡ some e
        → get_elem? (s ∷ rs) (i + 1) ≡ some e
    next rs i e h = ap (get_elem? (s ∷ rs)) (one_more i) ∙ h

add_tag-AddResult :
    (object : ℕ) (text : Text) (ss : List UserTag)
    → IsClean ss
    → AddResult ss text (add_tag object text ss)
unfolding add_tag
add_tag-AddResult object text [] clean = refl
add_tag-AddResult object text (s ∷ ss) clean = elim (Bool-cases s.active) [
  | inl on ↦
      subst (λ o. AddResult (s ∷ ss) text o) (sym (if_true s.active _ _ on))
        (behind-Added s ss text (add_tag object text ss) on
          (add_tag-AddResult object text ss clean.1))
  | inr off ↦
      subst (λ o. AddResult (s ∷ ss) text o) (sym (if_false s.active _ _ off))
        (record {
          counts = omega (arith, ap one_if off);
          size = refl;
          clean = (λ e. cc, clean.1);
          bound = omega arith;
          entry = record { object = object; tag = copy_tag s.tag text; active = true };
          at = refl;
          used = refl;
          tag = λ short. if_true (leb (length text) 64) text s.tag short;
        })
]

-- What a registration comes to: logPrint writes the tag for the category returned, or the table is
-- full and nothing changes.
abbrev pub Registers : Text → Logger → ℤ → Logger → Type 0
Registers text l (negsuc n) r = (n ≡ 0) × (r ≡ l) × (l.active_user_tag ≡ max_user_tag)
Registers text l (pos i) r =
    (level : ℤ) (line : Text)
    → leb_ℤ level r.active_level ≡ true
    → log_print (pos i) level line r ≡ time ∷ tag_text text ∷ message line ∷ []

in_range : (n i : ℕ) → 0 < n → i < 8 → (not (n == 0) && ltb i 8) ≡ true
in_range n i some_ small = ground arith

shorter : (n : ℕ) → n < 64 → leb n 64 ≡ true
shorter n short = ground arith

no_overflow :
    (text : Text) (o : Option (ℕ × List UserTag)) → length text < 64 → overflows text o ≡ false
no_overflow text none short = refl
no_overflow text (some r) short = ne→==_false (length text) 64 (omega (arith, short))

registered :
    (text : Text) (l : Logger) (o : Option (ℕ × List UserTag))
    → IsCounted l
    → length text < 64
    → AddResult l.user_tags text o
    → (c : ℤ) × (r : Logger) × (store_tags o ((l.active_user_tag + 1) % 2 ^ 32) l ≡ ok c r)
      × IsCounted r
      × Registers text l c r
unfolding log_print
registered text l none v short r = (negsuc 0, l, refl, v, (refl, refl, v.counts ∙ r ∙ v.size))
registered text l (some (i, rs)) v short r = (
  pos i,
  record l { user_tags = rs; active_user_tag = (l.active_user_tag + 1) % 2 ^ 32 },
  refl,
  record { counts = counted; clean = r.clean; size = r.size ∙ v.size },
  λ level line shown.
      if_true (leb_ℤ level l.active_level) _ _ shown
      ∙ ap (λ o. time ∷ o ∷ message line ∷ [])
          (if_true _ _ _ (
              in_range ((l.active_user_tag + 1) % 2 ^ 32) i (omega (arith, counted, r.counts))
                (omega (arith, r.bound, v.size)))
            ∙ ap tag_output r.at
            ∙ if_true r.entry.active _ _ r.used
            ∙ ap tag_text (r.tag (shorter (length text) short))),
)
  where
    counted : (l.active_user_tag + 1) % 2 ^ 32 ≡ actives rs
    counted = omega (arith, r.counts, v.counts, actives_bound l.user_tags, v.size)

-- Logger_set_userTag with a text shorter than the array keeps the invariant, and the category that it
-- returns makes logPrint write the text; without a free entry it returns -1 and changes nothing.
pub add_tag-Registers :
    (object : ℕ) (text : Text) (l : Logger)
    → IsCounted l
    → length text < 64
    → (c : ℤ) × (r : Logger) × (logger_set_user_tag object (some text) l ≡ ok c r)
      × IsCounted r
      × Registers text l c r
unfolding logger_set_user_tag
add_tag-Registers object text l v short =
    let slot = add_tag object text l.user_tags in
    let (c, r, runs, v', registers) =
      registered text l slot v short (add_tag-AddResult object text l.user_tags v.clean) in
    (c, r, if_false (overflows text slot) _ _ (no_overflow text slot short) ∙ runs, v', registers)
