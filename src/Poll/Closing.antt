-- ===== src/Poll/Closing.antt =====
-- Poll::~Poll.
use tools_on_linux.Poll.Creating.{new_poll-watches}
use tools_on_linux.Prelude.Outcome.{ok}
use tools_on_linux.ErrorCode.{no_error}
use tools_on_linux.Poll.Table.{new_poll, socket_ends}
use tools_on_linux.Poll.State.{Fds, Poll}
use tools_on_linux.Prelude.{
  ℕ, ◌^◌, Bool, true, false, List, [], ◌∷◌, Option, none, some, ltb, if◌then◌else◌, ◌≡◌, refl, ◌<◌,
  arith,
}

-- What the destructor gives back: the descriptors in the order in which it closes them, and whether
-- it frees the array.
pub record Released : Type 0 where
  pub closed : List ℕ
  pub freed : Bool

-- `if (fd >= 0) close(fd);`, in front of what is closed later.
abbrev pub close_fd : ℕ → List ℕ → List ℕ
close_fd fd later = if ltb fd (2 ^ 31) then fd ∷ later else later

-- `if (mFds) free(mFds);`
abbrev pub frees : Option Fds → Bool
frees none = false
frees (some f) = true

unfoldable pub delete_poll : Poll → Released × Poll
delete_poll p = (
  record {
    closed = close_fd p.control_write_fd (close_fd p.control_read_fd []);
    freed = frees p.fds;
  },
  record p { fds = none },
)

-- What socketpair opened, write end first.
abbrev pub opened : Option (ℕ × ℕ) → List ℕ
opened none = []
opened (some s) = s.1 ∷ s.0 ∷ []

-- socketpair gives descriptors, which are not negative.
abbrev pub AreFds : Option (ℕ × ℕ) → Type 0
AreFds none = Unit
AreFds (some s) = (s.0 < 2 ^ 31) × (s.1 < 2 ^ 31)

closes-opened :
    (sockets : Option (ℕ × ℕ))
    → AreFds sockets
    → close_fd (socket_ends sockets).1 (close_fd (socket_ends sockets).0 []) ≡ opened sockets
closes-opened none fds = refl
closes-opened (some s) fds = ground (arith, fds)

-- The destructor closes what the constructor opened and nothing else, whether or not socketpair was
-- successful, whatever the table is by then; mFds is NULL behind it. The constructor has memory for its
-- array.
pub delete_poll-new_poll :
    (rest : Fds) (sockets : Option (ℕ × ℕ)) (controllable : Bool)
    → AreFds sockets
    → (r : Poll) × (new_poll (some rest) sockets controllable ≡ ok no_error r)
      × ((p : Poll)
          → p.control_read_fd ≡ r.control_read_fd
          → p.control_write_fd ≡ r.control_write_fd
          → ((delete_poll p).0.closed ≡ opened sockets) × ((delete_poll p).1.fds ≡ none))
unfolding delete_poll
delete_poll-new_poll rest sockets controllable fds =
    let (r, made, valid, events, ctl, pending, bytes, read, write) =
      new_poll-watches rest sockets controllable in
    (
      r,
      made,
      λ p same_read same_write.
          (rw (same_read, same_write, read, write) (closes-opened sockets fds), refl),
    )
