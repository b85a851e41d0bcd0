-- ===== src/Poll/Table.antt =====
-- The methods of Poll on its table. Each runs under mMutex but isReadable and isWritable.
use tools_on_linux.ErrorCode.{no_error, error_no_memory, error_bad_value}
use tools_on_linux.Poll.State.{
  Run, Fds, M, write_fd, sizeof_pollfd, pollrdnorm, pollpri, pollout, pollnval, pollin, pollhup,
  pollerr, minus_one, PollFd, Poll,
}
use Prim.Native.Nat.{bit_or, bit_and}
use tools_on_linux.Prelude.{
  ℕ, zero, suc, ◌+◌, ◌-◌, ◌*◌, ◌/◌, ◌%◌, ◌^◌, Bool, true, false, not, ◌&&◌, Option, none, some, ltb,
  ◌==◌, if◌then◌else◌,
}
use tools_on_linux.Prelude.Int.{ℤ}
use tools_on_linux.Prelude.Outcome.{ok, fault, pure, get, modify, ◌>>=◌, ◌>>◌}

-- The loop of findFd over the `n` entries from `i` on.
unfoldable pub find_from : Fds → ℕ → (n i : ℕ) → Option ℕ
find_from f fd zero i = none
find_from f fd (suc n) i = if (f i).fd == fd then some i else find_from f fd n (i + 1)

-- mFds, for `n` entries to be read; reading one through NULL is a fault.
unfoldable pub table : M Fds
table p = elim p.fds [
  | none ↦ if p.fds_cnt == 0 then ok (λ _. record { fd = 0; events = 0; revents = 0 }) p else fault
  | some f ↦ ok f p
]

-- The index of the entry, or `none` for NULL.
unfoldable pub find_fd : ℕ → M (Option ℕ)
find_fd fd = do f ← table; p ← get; pure (find_from f fd p.fds_cnt 0)

-- INCREASE_ACTIVE_FDS
abbrev pub increase_active_fds : ℕ
increase_active_fds = 8

-- What realloc gives: NULL, or an array with the old entries and anything behind them.
abbrev pub realloc : Option Fds → Option Fds → ℕ → Option Fds
realloc none old n = none
realloc (some rest) none n = some rest
realloc (some rest) (some f) n = some (λ j. if ltb j n then f j else rest j)

unfoldable pub new_entry : ℕ → PollFd
new_entry fd = record { fd = fd; events = bit_or (bit_or pollerr pollnval) pollhup; revents = 0 }

-- The three stores behind the last entry, and `mFdsCnt++`.
unfoldable pub append_fd : ℕ → M ℤ
append_fd fd p = elim p.fds [
  | none ↦ fault
  | some f ↦
      ok no_error
        (record p { fds = some (write_fd f p.fds_cnt (new_entry fd)); fds_cnt = p.fds_cnt + 1 })
]

-- `memory` is what a realloc in this call finds.
unfoldable pub grow_fds : Option Fds → M Bool
grow_fds memory p =
    let q = record p {
      fds_max_cnt = p.fds_max_cnt + increase_active_fds;
      fds = realloc memory p.fds p.fds_max_cnt;
    } in
    elim q.fds [ none ↦ ok false q | some f ↦ ok true q ]

unfoldable pub add_fd : Option Fds → ℕ → M ℤ
add_fd memory fd = do
  found ← find_fd fd
  elim found [
    | some k ↦ pure no_error
    | none ↦ do
      p ← get
      if ltb p.fds_max_cnt (p.fds_cnt + 1)
          then (do grown ← grow_fds memory; if grown then append_fd fd else pure error_no_memory)
          else append_fd fd
  ]

-- `memmove(dst, src, 1)` between entries: the first byte of an entry is the low byte of its fd.
unfoldable pub move_byte : Fds → (to from : ℕ) → Fds
move_byte f to from =
    write_fd f to (record (f to) { fd = (f to).fd / 2 ^ 8 * 2 ^ 8 + (f from).fd % 2 ^ 8 })

-- The memmove of removeFd: `mFds + i * sizeof(struct pollfd)` steps over entries, not bytes. An
-- entry outside the array is a fault.
unfoldable pub remove_at : ℕ → M ℤ
remove_at i = do
  f ← table
  p ← get
  if ltb ((i + 1) * sizeof_pollfd) p.fds_max_cnt
      then (do
        modify (λ p. record p {
          fds = some (move_byte f (i * sizeof_pollfd) ((i + 1) * sizeof_pollfd));
          fds_cnt = p.fds_cnt - 1;
        })
        pure no_error)
      else λ _. fault

unfoldable pub remove_fd : ℕ → M ℤ
remove_fd fd = do found ← find_fd fd; elim found [ none ↦ pure no_error | some i ↦ remove_at i ]

-- Both setters: find the entry and change its events.
unfoldable pub set_events : ℕ → (ℕ → ℕ) → M ℤ
set_events fd change = do
  found ← find_fd fd
  elim found [
    | none ↦ pure error_bad_value
    | some k ↦ do
      f ← table
      modify (λ p. record p {
        fds = some (write_fd f k (record (f k) { events = change (f k).events }));
      })
      pure no_error
  ]

-- `events |= POLLIN | POLLPRI` or `events &= ~POLLIN`.
unfoldable pub readable_events : Bool → ℕ → ℕ
readable_events true e = bit_or e (bit_or pollin pollpri)
readable_events false e = bit_and e (2 ^ 16 - 1 - pollin)

-- `events |= POLLOUT` or `events &= ~POLLOUT`.
unfoldable pub writable_events : Bool → ℕ → ℕ
writable_events true e = bit_or e pollout
writable_events false e = bit_and e (2 ^ 16 - 1 - pollout)

unfoldable pub set_fd_readable : ℕ → Bool → M ℤ
set_fd_readable fd readable = set_events fd (readable_events readable)

unfoldable pub set_fd_writable : ℕ → Bool → M ℤ
set_fd_writable fd writable = set_events fd (writable_events writable)

-- The loop of isReadable and isWritable, with the mask of revents.
unfoldable pub any_event : Fds → ℕ → ℕ → (n i : ℕ) → Bool
any_event f fd mask zero i = false
any_event f fd mask (suc n) i =
    if (f i).fd == fd && not (bit_and (f i).revents mask == 0)
    then true
    else any_event f fd mask n (i + 1)

unfoldable pub is_readable : ℕ → M Bool
is_readable fd = do f ← table; p ← get; pure (any_event f fd (bit_or pollin pollrdnorm) p.fds_cnt 0)

unfoldable pub is_writable : ℕ → M Bool
is_writable fd = do f ← table; p ← get; pure (any_event f fd pollout p.fds_cnt 0)

-- The ends of the control socket, -1 where there is none.
abbrev pub socket_ends : Option (ℕ × ℕ) → ℕ × ℕ
socket_ends none = (minus_one, minus_one)
socket_ends (some s) = s

-- The constructor: `sockets` is what socketpair gives, read end first. The array is NULL
-- and the counters are 0.
unfoldable pub empty_poll : Option (ℕ × ℕ) → Bool → Poll
empty_poll sockets controllable =
    let ends = socket_ends sockets in
    record {
      control_read_fd = ends.0;
      control_write_fd = ends.1;
      fds = none;
      fds_max_cnt = 0;
      fds_cnt = 0;
      controllable = controllable;
      control_pending = 0;
      flushing = 0;
      waiting = 0;
      control_bytes = 0;
      errno = 0;
    }

unfoldable pub new_poll : Option Fds → Option (ℕ × ℕ) → Bool → Run ℤ
unfolding empty_poll
new_poll memory sockets controllable =
    let p = empty_poll sockets controllable in
    (do add_fd memory p.control_read_fd; set_fd_readable p.control_read_fd true) p
