-- ===== src/Poll/Setting.antt =====
-- Poll::setFdReadable and Poll::setFdWritable.
use tools_on_linux.Poll.Watching.{
  IsTable-cases, events_of, events_in, events_at-same, events_at, SameButTable, IsTable,
}
use tools_on_linux.Prelude.Outcome.{ok}
use tools_on_linux.Poll.Lookup.{find_from-found, find_from-agree}
use tools_on_linux.ErrorCode.{error_bad_value, no_error}
use tools_on_linux.Poll.Table.{set_events, table, find_fd, find_from}
use tools_on_linux.Poll.Masks.{Turned}
use tools_on_linux.Poll.State.{write_fd, Fds, Poll, Run}
use tools_on_linux.Prelude.{
  inl, inr, ==_true→eq, ==_refl, ne→==_false, ℕ, ◌≤◌, Bool, false, Option, none, some, ◌==◌,
  if◌then◌else◌, ◌≡◌, ◌≢◌, refl, arith, inl, inr, ◌∙◌, Bool-cases, Option-cases, ap, sym,
}
use tools_on_linux.Prelude.Int.{ℤ}

abbrev pub set_code : Option ℕ → ℤ
set_code none = error_bad_value
set_code (some e) = no_error

abbrev pub changed : (ℕ → ℕ) → Option ℕ → Option ℕ
changed change none = none
changed change (some e) = some (change e)

abbrev pub Sets : ℕ → (ℕ → ℕ) → Poll → Type 0
Sets x change p =
    (r : Poll) × (set_events x change p ≡ ok (set_code (events_of p x)) r)
    × IsTable r
    × SameButTable p r
    × ((y : ℕ) → events_of r y ≡ (if y == x then changed change (events_of p x) else events_of p y))

different : (y x : ℕ) → (y == x) ≡ false → y ≢ x
different y x e = ground arith

same_none : (h : ℕ → Option ℕ) (x : ℕ) → h x ≡ none → (y : ℕ) → h y ≡ (if y == x then none else h y)
same_none h x at y = elim (Bool-cases (y == x)) [
  | inl here ↦ rw (here, ==_true→eq y x here) at
  | inr other ↦ rw other refl
]

-- The entry at `k` with its events changed.
abbrev change_at : Fds → ℕ → (ℕ → ℕ) → Fds
change_at f k change = write_fd f k (record (f k) { events = change (f k).events })

change_at-fd : (f : Fds) (k : ℕ) (change : ℕ → ℕ) (j : ℕ) → (change_at f k change j).fd ≡ (f j).fd
unfolding write_fd
change_at-fd f k change j = elim (Bool-cases (j == k)) [
  | inl here ↦ rw (here, ==_true→eq j k here) refl
  | inr other ↦ rw other refl
]

set_events-entry :
    (f : Fds) (n k x : ℕ) (change : ℕ → ℕ)
    → find_from f x n 0 ≡ some k
    → (y : ℕ)
    → events_in (some (change_at f k change)) n y
      ≡ (if y == x then some (change (f k).events) else events_in (some f) n y)
unfolding write_fd
set_events-entry f n k x change found y =
    ap (events_at (change_at f k change))
      (find_from-agree (change_at f k change) f y n 0 (λ j h. change_at-fd f k change j))
    ∙ elim (Bool-cases (y == x)) [
      | inl here ↦ rw (here, ==_true→eq y x here, found, ==_refl k) refl
      | inr other ↦ rw other (
          events_at-same f (change_at f k change) (find_from f y n 0) (λ j e.
            rw
              (ne→==_false j k (λ same. different y x other (
                sym (find_from-found f y n 0 j e).1
                ∙ ap (λ l. (f l).fd) same
                ∙ (find_from-found f x n 0 k found).1)))
              refl))
    ]

set_events-array :
    (p : Poll) (f : Fds) (x : ℕ) (change : ℕ → ℕ)
    → p.fds_cnt ≤ p.fds_max_cnt
    → Sets x change (record p { fds = some f })
unfolding set_events find_fd table write_fd
set_events-array p f x change bounded = elim (Option-cases (find_from f x p.fds_cnt 0)) [
  | inl absent ↦ (
    record p { fds = some f },
    rw absent refl,
    record { bounded = bounded; array = inr (f, refl) },
    refl,
    λ y. rw absent (same_none (events_in (some f) p.fds_cnt) x (ap (events_at f) absent) y),
  )
  | inr (k, found) ↦ (
    record p { fds = some (write_fd f k (record (f k) { events = change (f k).events })) },
    rw found refl,
    record { bounded = bounded; array = inr (_, refl) },
    refl,
    λ y. rw found (set_events-entry f p.fds_cnt k x change found y),
  )
]

set_events-first :
    (p : Poll) (x : ℕ) (change : ℕ → ℕ)
    → Sets x change (record p { fds = none; fds_cnt = 0; fds_max_cnt = 0 })
unfolding set_events find_fd table find_from
set_events-first p x change = (
  record p { fds = none; fds_cnt = 0; fds_max_cnt = 0 },
  refl,
  record { bounded = omega arith; array = inl (refl, refl) },
  refl,
  λ y. same_none (λ _. none) x refl y,
)

pub set_events-Sets : (p : Poll) (x : ℕ) (change : ℕ → ℕ) → IsTable p → Sets x change p
set_events-Sets p x change v =
    IsTable-cases (Sets x change) p v (λ f. set_events-array p f x change v.bounded)
      (set_events-first p x change)

-- A method on a valid table that changes the events of `x` with `Turned`.
abbrev pub Turns : Bool → (on off : ℕ → Bool) → ℕ → Poll → Run ℤ → Type 0
Turns b on off x p run =
    (change : ℕ → ℕ) × (r : Poll) × ((e : ℕ) → Turned b on off e (change e))
    × (run ≡ ok (set_code (events_of p x)) r)
    × IsTable r
    × SameButTable p r
    × ((y : ℕ) → events_of r y ≡ (if y == x then changed change (events_of p x) else events_of p y))
