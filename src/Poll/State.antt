-- ===== src/Poll/State.antt =====
-- The fields of class Poll (Poll.h) and the constants of poll(2). An int is its 32-bit pattern and
-- a short its 16-bit pattern; a count of entries is a number.
use tools_on_linux.Prelude.{ℕ, ◌-◌, ◌^◌, Bool, ◌&&◌, Option, ltb, ◌==◌, if◌then◌else◌}
use tools_on_linux.Prelude.Outcome.{Outcome, Program}

abbrev pub pollin : ℕ
pollin = 1

abbrev pub pollpri : ℕ
pollpri = 2

abbrev pub pollout : ℕ
pollout = 4

abbrev pub pollerr : ℕ
pollerr = 8

abbrev pub pollhup : ℕ
pollhup = 16

abbrev pub pollnval : ℕ
pollnval = 32

abbrev pub pollrdnorm : ℕ
pollrdnorm = 64

-- struct pollfd
pub record PollFd : Type 0 where
  pub fd : ℕ
  pub events : ℕ
  pub revents : ℕ

-- sizeof(struct pollfd)
abbrev pub sizeof_pollfd : ℕ
sizeof_pollfd = 8

-- An array of them.
abbrev pub Fds : Type 0
Fds = ℕ → PollFd

-- `control_bytes` counts the bytes that wait in the control socket. mFds is `none` where it is NULL.
-- `errno` is the variable of the running thread.
pub record Poll : Type 0 where
  pub control_read_fd : ℕ
  pub control_write_fd : ℕ
  pub fds : Option Fds
  pub fds_max_cnt : ℕ
  pub fds_cnt : ℕ
  pub controllable : Bool
  pub control_pending : ℕ
  pub flushing : ℕ
  pub waiting : ℕ
  pub control_bytes : ℕ
  pub errno : ℕ

abbrev pub Run : Type 0 → Type 0
Run A = Outcome Poll A

abbrev pub M : Type 0 → Type 0
M A = Program Poll A

-- `x > 0` on an int.
abbrev pub positive : ℕ → Bool
positive x = ltb 0 x && ltb x (2 ^ 31)

-- -1 as an int.
abbrev pub minus_one : ℕ
minus_one = 2 ^ 32 - 1

-- The entry at `k` written over.
unfoldable pub write_fd : Fds → ℕ → PollFd → Fds
write_fd f k e j = if j == k then e else f j
