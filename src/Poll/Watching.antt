-- ===== src/Poll/Watching.antt =====
-- The table of Poll as a map from file descriptors to the events asked for.
use tools_on_linux.Memory.{null}
use tools_on_linux.Poll.Table.{find_from}
use tools_on_linux.Poll.State.{Fds, Poll}
use tools_on_linux.Prelude.{
  arith, sym, subst, ◌⊎◌, inl, inr, ℕ, ◌≤◌, Option, none, some, ◌≡◌, refl, ap, ◌⊎◌,
}

-- The counts describe an array; mFds is NULL only before the first entry.
pub record IsTable (p : Poll) : Type 0 where
  pub bounded : p.fds_cnt ≤ p.fds_max_cnt
  pub array : ((p.fds ≡ none) × (p.fds_max_cnt ≡ 0)) ⊎ ((f : Fds) × (p.fds ≡ some f))

abbrev pub events_at : Fds → Option ℕ → Option ℕ
events_at f none = none
events_at f (some k) = some (f k).events

abbrev pub events_in : Option Fds → ℕ → ℕ → Option ℕ
events_in none n x = none
events_in (some f) n x = events_at f (find_from f x n 0)

-- The events asked for `x`, where it is watched.
abbrev pub events_of : Poll → ℕ → Option ℕ
events_of p = events_in p.fds p.fds_cnt

-- Only the table differs.
abbrev pub SameButTable : Poll → Poll → Type 0
SameButTable p r = r ≡ record p { fds = r.fds; fds_cnt = r.fds_cnt; fds_max_cnt = r.fds_max_cnt }

pub events_at-same :
    (f g : Fds) (o : Option ℕ)
    → ((k : ℕ) → o ≡ some k → (g k).events ≡ (f k).events)
    → events_at g o ≡ events_at f o
events_at-same f g none same = refl
events_at-same f g (some k) same = ap some (same k refl)

-- To show something of a valid table: it has an array, or it is NULL and empty.
pub IsTable-cases :
    (P : Poll → Type 0) (p : Poll)
    → IsTable p
    → ((f : Fds) → P (record p { fds = some f }))
    → P (record p { fds = none; fds_cnt = 0; fds_max_cnt = 0 })
    → P p
IsTable-cases P p v array null = elim v.array [
  | inr (f, has_fds) ↦ subst (λ q. P q) (λ i. record p { fds = sym has_fds i }) (array f)
  | inl (no_fds, no_room) ↦
      let no_entries : p.fds_cnt ≡ 0 = omega (arith, v.bounded, no_room) in
      subst (λ q. P q)
        (λ i. record p {
          fds = sym no_fds i;
          fds_cnt = sym no_entries i;
          fds_max_cnt = sym no_room i;
        })
        null
]

pub absent-of_events : (f : Fds) (o : Option ℕ) → events_at f o ≡ none → o ≡ none
absent-of_events f none e = refl
absent-of_events f (some k) e = cc
