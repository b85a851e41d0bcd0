-- ===== src/Poll/Adding.antt =====
-- Poll::addFd.
use tools_on_linux.Poll.Watching.{
  IsTable-cases, events_of, events_at-same, events_at, SameButTable, IsTable,
}
use tools_on_linux.Prelude.Outcome.{ok}
use tools_on_linux.Poll.Lookup.{
  find_from_first-last, or_last, find_from_first-last, find_from-found, find_from-agree,
}
use tools_on_linux.ErrorCode.{no_error}
use tools_on_linux.Poll.Table.{
  table, increase_active_fds, grow_fds, find_fd, append_fd, new_entry, find_from, add_fd,
}
use tools_on_linux.Poll.State.{write_fd, Fds, Poll}
use tools_on_linux.Prelude.{
  inl, inr, if_true, if_false, ==_true→eq, ==_refl, ne→==_false, ℕ, suc, ◌+◌, ◌≤◌, ◌<◌, false,
  Option, none, some, ◌==◌, if◌then◌else◌, ◌≡◌, refl, arith, inl, inr, ◌∙◌, Bool-cases,
  Option-cases, ap, ltb,
}

-- addFd with memory at hand: `x` is watched with what it had, or with the default events.
abbrev pub default_events : Option ℕ → ℕ
default_events none = 56
default_events (some e) = e

abbrev pub Adds : Option Fds → ℕ → Poll → Type 0
Adds memory x p =
    (r : Poll) × (add_fd memory x p ≡ ok no_error r)
    × IsTable r
    × SameButTable p r
    × ((y : ℕ)
        → events_of r y ≡ (if y == x then some (default_events (events_of p x)) else events_of p y))

or_last-false : (o : Option ℕ) (n : ℕ) → or_last o false n ≡ o
or_last-false none n = refl
or_last-false (some k) n = refl

-- What the array holds once `x` is behind its `n` entries.
appended :
    (f g : Fds) (n x : ℕ)
    → ((j : ℕ) → j < n → g j ≡ f j)
    → g n ≡ new_entry x
    → find_from f x n 0 ≡ none
    → (y : ℕ)
    → events_at g (find_from g y (suc n) 0)
      ≡ (if y == x then some 56 else events_at f (find_from f y n 0))
unfolding new_entry
appended f g n x same at absent y =
    ap (events_at g) (
      find_from_first-last g y n
      ∙ ap (λ o. or_last o ((g n).fd == y) n)
          (find_from-agree g f y n 0 (λ j h. ap (λ e. e.fd) (same j (omega (arith, h)))))
      ∙ ap (λ e. or_last (find_from f y n 0) (e.fd == y) n) at)
    ∙ elim (Bool-cases (y == x)) [
      | inl here ↦ rw (==_true→eq y x here, absent, ==_refl x) (ap (λ e. some e.events) at)
      | inr other ↦
          rw (other, ne→==_false x y (ground (arith, other)), or_last-false (find_from f y n 0))
            (events_at-same f g (find_from f y n 0)
              (λ k e. ap (λ e. e.events) (same k (omega (arith, (find_from-found f y n 0 k e).0)))))
    ]

suc-of : (n : ℕ) → n + 1 ≡ suc n
suc-of n = omega arith

-- The object with `x` in the array `g` behind its entries.
abbrev with_entry : Poll → Fds → ℕ → ℕ → Poll
with_entry p g m x = record p {
  fds = some (write_fd g p.fds_cnt (new_entry x));
  fds_cnt = p.fds_cnt + 1;
  fds_max_cnt = m;
}

with_entry-IsTable :
    (p : Poll) (g : Fds) (m x : ℕ) → p.fds_cnt + 1 ≤ m → IsTable (with_entry p g m x)
with_entry-IsTable p g m x fits = record {
  bounded = fits;
  array = inr (write_fd g p.fds_cnt (new_entry x), refl);
}

with_entry-events :
    (p : Poll) (f g : Fds) (m x : ℕ)
    → ((j : ℕ) → j < p.fds_cnt → g j ≡ f j)
    → find_from f x p.fds_cnt 0 ≡ none
    → (y : ℕ)
    → events_of (with_entry p g m x) y
      ≡ (if y == x then some 56 else events_at f (find_from f y p.fds_cnt 0))
unfolding write_fd
with_entry-events p f g m x same absent y =
    ap
      (λ n.
        events_at (write_fd g p.fds_cnt (new_entry x))
          (find_from (write_fd g p.fds_cnt (new_entry x)) y n 0))
      (suc-of p.fds_cnt)
    ∙ appended f (write_fd g p.fds_cnt (new_entry x)) p.fds_cnt x
        (λ j h.
          if_false (j == p.fds_cnt) _ _ (ne→==_false j p.fds_cnt (omega (arith, h))) ∙ same j h)
        (if_true (p.fds_cnt == p.fds_cnt) _ _ (==_refl p.fds_cnt)) absent y

keeps :
    (h : ℕ → Option ℕ) (x e : ℕ) → h x ≡ some e → (y : ℕ) → h y ≡ (if y == x then some e else h y)
keeps h x e at y = elim (Bool-cases (y == x)) [
  | inl here ↦ rw (here, ==_true→eq y x here) at
  | inr other ↦ rw other refl
]

add_fd-array :
    (p : Poll) (f rest : Fds) (x : ℕ)
    → p.fds_cnt ≤ p.fds_max_cnt
    → Adds (some rest) x (record p { fds = some f })
unfolding add_fd find_fd table grow_fds append_fd
add_fd-array p f rest x bounded = elim (Option-cases (find_from f x p.fds_cnt 0)) [
  | inr (k, found) ↦ (
    record p { fds = some f },
    rw found refl,
    record { bounded = bounded; array = inr (f, refl) },
    refl,
    λ y. rw found (
        keeps (λ y. events_at f (find_from f y p.fds_cnt 0)) x (f k).events (ap (events_at f) found)
          y),
  )
  | inl absent ↦ elim (Bool-cases (ltb p.fds_max_cnt (p.fds_cnt + 1))) [
    | inl small ↦ (
      with_entry p (λ j. if ltb j p.fds_max_cnt then f j else rest j)
          (p.fds_max_cnt + increase_active_fds) x,
      rw (absent, small) refl,
      with_entry-IsTable p _ _ x (omega arith),
      refl,
      λ y. rw absent (
          with_entry-events p f _ (p.fds_max_cnt + increase_active_fds) x
            (λ j h. if_true (ltb j p.fds_max_cnt) _ _ (ground (arith, h, bounded))) absent y),
    )
    | inr room ↦ (
      with_entry p f p.fds_max_cnt x,
      rw (absent, room) refl,
      with_entry-IsTable p f _ x (ground (arith, room)),
      refl,
      λ y. rw absent (with_entry-events p f f p.fds_max_cnt x (λ j h. refl) absent y),
    )
  ]
]

add_fd-first :
    (p : Poll) (rest : Fds) (x : ℕ)
    → Adds (some rest) x (record p { fds = none; fds_cnt = 0; fds_max_cnt = 0 })
unfolding add_fd find_fd table grow_fds append_fd find_from
add_fd-first p rest x = (
  with_entry empty rest 8 x,
  refl,
  with_entry-IsTable empty rest 8 x (omega arith),
  refl,
  with_entry-events empty rest rest 8 x (λ j h. refl) refl,
)
  where
    empty : Poll
    empty = record p { fds = none; fds_cnt = 0; fds_max_cnt = 0 }

-- addFd on a valid table, where realloc finds memory, succeeds: the descriptor is watched, with the
-- events it had or with POLLERR, POLLNVAL and POLLHUP; every other one is watched as before, and
-- nothing else of the object changes.
pub add_fd-Adds : (p : Poll) (rest : Fds) (x : ℕ) → IsTable p → Adds (some rest) x p
add_fd-Adds p rest x v =
    IsTable-cases (Adds (some rest) x) p v (λ f. add_fd-array p f rest x v.bounded)
      (add_fd-first p rest x)
