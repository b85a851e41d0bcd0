-- ===== src/Logger/Removing.antt =====
-- Logger_init, and Logger_set_userTag without a text.
use tools_on_linux.Prelude.{
  subst, if_true, if_false, ==_true→eq, ℕ, ◌+◌, ◌-◌, ◌%◌, ◌^◌, Bool, true, false, Option, none,
  some, List, [], ◌∷◌, ◌==◌, length, ◌≡◌, ◌≢◌, refl, arith, inl, inr, Bool-cases, ◌∙◌, sym,
}
use tools_on_linux.Logger.Tags.{one_if, actives, IsClean, IsCounted, actives_bound}
use tools_on_linux.Prelude.Int.{ℤ, pos, negsuc}
use tools_on_linux.Prelude.Outcome.{ok}
use tools_on_linux.Logger.State.{
  logger_init, UserTag, Logger, remove_tag, logger_set_user_tag, behind, no_object, store_tags,
}

-- What the second loop comes to, for an object that is not -1.
record Removed (ss : List UserTag) (rs : List UserTag) : Type 0 where
  counts : actives rs + 1 ≡ actives ss
  size : length rs ≡ length ss
  clean : IsClean rs

abbrev RemoveResult : List UserTag → Option (ℕ × List UserTag) → Type 0
RemoveResult ss none = Unit {0}
RemoveResult ss (some (i, rs)) = Removed ss rs

behind-Removed :
    (s : UserTag) (ss : List UserTag) (o : Option (ℕ × List UserTag))
    → (s.active ≡ false → s.object ≡ no_object)
    → RemoveResult ss o
    → RemoveResult (s ∷ ss) (behind s o)
behind-Removed s ss none clean r = tt
behind-Removed s ss (some (i, rs)) clean r = record {
  counts = omega (arith, r.counts);
  size = omega (arith, r.size);
  clean = (clean, r.clean);
}

remove_tag-RemoveResult :
    (object : ℕ) (ss : List UserTag)
    → IsClean ss
    → object ≢ no_object
    → RemoveResult ss (remove_tag object ss)
unfolding remove_tag
remove_tag-RemoveResult object [] clean other = tt
remove_tag-RemoveResult object (s ∷ ss) clean other = elim (Bool-cases (s.object == object)) [
  | inl own ↦
      subst (λ o. RemoveResult (s ∷ ss) o) (sym (if_true (s.object == object) _ _ own))
        (record {
          counts = omega (arith, in_use s.active (λ off. clean.0 off) own);
          size = refl;
          clean = (λ e. refl, clean.1);
        })
  | inr on ↦
      subst (λ o. RemoveResult (s ∷ ss) o) (sym (if_false (s.object == object) _ _ on))
        (behind-Removed s ss (remove_tag object ss) clean.0
          (remove_tag-RemoveResult object ss clean.1 other))
]
  where
    in_use :
        (b : Bool) → (b ≡ false → s.object ≡ no_object) → (s.object == object) ≡ true → one_if b ≡ 1
    in_use true h own = refl
    in_use false h own = absurd (other (sym (==_true→eq s.object object own) ∙ h refl))

removed :
    (l : Logger) (o : Option (ℕ × List UserTag))
    → IsCounted l
    → RemoveResult l.user_tags o
    → (c : ℤ) × (r : Logger) × (store_tags o ((l.active_user_tag + 2 ^ 32 - 1) % 2 ^ 32) l ≡ ok c r)
      × IsCounted r
removed l none v r = (negsuc 0, l, refl, v)
removed l (some (i, rs)) v r = (
  pos i,
  record l { user_tags = rs; active_user_tag = (l.active_user_tag + 2 ^ 32 - 1) % 2 ^ 32 },
  refl,
  record {
    counts = omega (arith, r.counts, v.counts, actives_bound l.user_tags, v.size);
    clean = r.clean;
    size = r.size ∙ v.size;
  },
)

-- Logger_set_userTag without a text keeps the invariant for every object but (size_t)-1: the counter
-- is the number of tags in use.
pub remove_tag-IsCounted :
    (object : ℕ) (l : Logger)
    → IsCounted l
    → object ≢ no_object
    → (c : ℤ) × (r : Logger) × (logger_set_user_tag object none l ≡ ok c r) × IsCounted r
unfolding logger_set_user_tag
remove_tag-IsCounted object l v other =
    removed l (remove_tag object l.user_tags) v
      (remove_tag-RemoveResult object l.user_tags v.clean other)

-- For (size_t)-1 it is not: on the table of a started log the counter wraps to 2^32 - 1.
pub remove_tag-no_object :
    (l : Logger)
    → l.initialised ≡ false
    → logger_set_user_tag no_object none (logger_init l)
      ≡ ok (pos 0) (record (logger_init l) { active_user_tag = 2 ^ 32 - 1 })
unfolding logger_set_user_tag logger_init remove_tag
remove_tag-no_object l fresh = rw fresh refl

-- Logger_init on a log that was not started makes a valid table.
pub logger_init-IsCounted : (l : Logger) → l.initialised ≡ false → IsCounted (logger_init l)
unfolding logger_init
logger_init-IsCounted l fresh =
    subst (λ r. IsCounted r) (sym (if_false l.initialised _ _ fresh))
      (record {
        counts = refl;
        clean = (
          λ _. refl,
          (
            λ _. refl,
            (λ _. refl, (λ _. refl, (λ _. refl, (λ _. refl, (λ _. refl, (λ _. refl, tt)))))),
          ),
        );
        size = refl;
      })
