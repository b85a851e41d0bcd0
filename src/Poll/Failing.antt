-- ===== src/Poll/Failing.antt =====
-- Poll::addFd where realloc fails, and Poll::removeFd.
use tools_on_linux.Prelude.Int.{ℤ}
use tools_on_linux.Poll.Watching.{absent-of_events, IsTable-cases, events_of, IsTable}
use tools_on_linux.Prelude.Outcome.{ok, fault}
use tools_on_linux.ErrorCode.{no_error, error_no_memory}
use tools_on_linux.Poll.Table.{
  remove_at, remove_fd, table, increase_active_fds, grow_fds, find_from, find_fd, append_fd, add_fd,
}
use tools_on_linux.Poll.State.{Run, Fds, Poll}
use tools_on_linux.Prelude.{
  ◌*◌, inl, inr, ==_true→eq, ℕ, ◌+◌, ◌*◌, ◌≤◌, true, false, Option, none, some, ◌==◌, ◌≡◌, refl,
  arith, inl, inr, Bool-cases, Option-cases, ltb, sym, subst,
}

-- The object that a failed growth leaves.
abbrev without_fds : Poll → Poll
without_fds p = record p { fds_max_cnt = p.fds_max_cnt + increase_active_fds; fds = none }

-- NULL with room but no entry.
add_fd-none :
    (p : Poll) (memory : Option Fds) (m y : ℕ)
    → ltb m 1 ≡ false
    → add_fd memory y (record p { fds = none; fds_cnt = 0; fds_max_cnt = m }) ≡ fault
unfolding add_fd find_fd table append_fd find_from
add_fd-none p memory m y room = rw room refl

room_left : (m : ℕ) → ltb (m + 8) 1 ≡ false
room_left m = ground arith

less : (m n : ℕ) → n ≡ m → ltb m (n + 1) ≡ true
less m n e = ground arith

add_fd-without_fds :
    (p : Poll) (memory : Option Fds) (y : ℕ)
    → p.fds_cnt ≤ p.fds_max_cnt
    → add_fd memory y (without_fds p) ≡ fault
unfolding add_fd find_fd table append_fd find_from
add_fd-without_fds p memory y bounded = elim (Bool-cases (p.fds_cnt == 0)) [
  | inl e ↦
      subst (λ n. add_fd memory y (record (without_fds p) { fds_cnt = n }) ≡ fault)
        (sym (==_true→eq p.fds_cnt 0 e))
        (add_fd-none p memory (p.fds_max_cnt + 8) y (room_left p.fds_max_cnt))
  | inr e ↦ rw e refl
]

-- What removeFd comes to there.
abbrev pub removal : Option ℕ → Run ℤ → Run ℤ
removal none done = done
removal (some e) done = fault

abbrev pub Breaks : ℕ → Poll → Type 0
Breaks x p =
    (r : Poll) × (add_fd none x p ≡ ok error_no_memory r)
    × ((memory : Option Fds) (y : ℕ) → add_fd memory y r ≡ fault)

add_fd-array :
    (p : Poll) (f : Fds) (x : ℕ)
    → p.fds_cnt ≡ p.fds_max_cnt
    → find_from f x p.fds_cnt 0 ≡ none
    → Breaks x (record p { fds = some f })
unfolding add_fd find_fd table grow_fds
add_fd-array p f x full absent = (
  without_fds p,
  rw (absent, less p.fds_max_cnt p.fds_cnt full) refl,
  λ memory y. add_fd-without_fds p memory y (omega (arith, full)),
)

add_fd-null : (p : Poll) (x : ℕ) → Breaks x (record p { fds = none; fds_cnt = 0; fds_max_cnt = 0 })
unfolding add_fd find_fd table grow_fds find_from
add_fd-null p x = (
  record p { fds = none; fds_cnt = 0; fds_max_cnt = 8 },
  refl,
  λ memory y. add_fd-none p memory 8 y refl,
)

-- Where realloc fails for a descriptor that is not watched in a full table, addFd reports that there
-- is no memory; but mFds is then NULL beside its old count, and every later addFd goes through it.
pub add_fd-no_memory :
    (p : Poll) (x : ℕ) → IsTable p → p.fds_cnt ≡ p.fds_max_cnt → events_of p x ≡ none → Breaks x p
add_fd-no_memory p x v full absent =
    IsTable-cases (λ q. events_of q x ≡ none → q.fds_cnt ≡ q.fds_max_cnt → Breaks x q) p v
      (λ f absent full. add_fd-array p f x full (absent-of_events f _ absent))
      (λ absent full. add_fd-null p x) absent full

remove_fd-null :
    (p : Poll) (x : ℕ)
    → let q = record p { fds = none; fds_cnt = 0; fds_max_cnt = 0 } in
      remove_fd x q ≡ removal (events_of q x) (ok no_error q)
unfolding remove_fd find_fd table find_from
remove_fd-null p x = refl

outside : (m k : ℕ) → m ≤ 8 → ltb ((k + 1) * 8) m ≡ false
outside m k small = ground arith

remove_fd-array :
    (p : Poll) (f : Fds) (x : ℕ)
    → p.fds_max_cnt ≤ 8
    → let q = record p { fds = some f } in remove_fd x q ≡ removal (events_of q x) (ok no_error q)
unfolding remove_fd find_fd table remove_at
remove_fd-array p f x small = elim (Option-cases (find_from f x p.fds_cnt 0)) [
  | inl absent ↦ rw absent refl
  | inr (k, found) ↦ rw (found, outside p.fds_max_cnt k small) refl
]

-- removeFd on a table of at most eight slots: a descriptor that is not watched is ignored, and one
-- that is watched makes memmove leave the array, since the offset counts entries and not bytes.
pub remove_fd-small :
    (p : Poll) (x : ℕ)
    → IsTable p
    → p.fds_max_cnt ≤ 8
    → remove_fd x p ≡ removal (events_of p x) (ok no_error p)
remove_fd-small p x v small =
    IsTable-cases (λ q. q.fds_max_cnt ≤ 8 → remove_fd x q ≡ removal (events_of q x) (ok no_error q))
      p v (λ f small. remove_fd-array p f x small) (λ small. remove_fd-null p x) small
