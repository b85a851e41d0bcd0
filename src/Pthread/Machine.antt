-- ===== src/Pthread/Machine.antt =====
-- A machine with one thread: nobody else takes its mutex or signals it, so that each timed wait goes on
-- to its deadline. It shows that what Pthread asks can be met.
use tools_on_linux.Prelude.{
  ℕ, ◌/◌, ◌%◌, ◌≤◌, ◌≡◌, ◌≢◌, Bool, true, false, ltb, if◌then◌else◌, arith,
}
use tools_on_linux.Prelude.Int.{pos, ltb_ℤ, ◌<ℤ◌}
use tools_on_linux.Condition.Deadline.{TimeSpec, IsNormal, nanoseconds}
use tools_on_linux.Pthread.{Pthread, Clock, CondAttr, etimedout, einval}

-- `now` in nanoseconds, for both clocks.
pub record Machine : Type 0 where
  pub held : Bool
  pub now : ℕ

abbrev pub machine : Bool → ℕ → Machine
machine held now = record { held = held; now = now }

-- EDEADLK, EBUSY and EPERM.
abbrev lock : Machine → ℕ × Machine
lock m = if m.held then (35, m) else (0, machine true m.now)

abbrev trylock : Machine → ℕ × Machine
trylock m = if m.held then (16, m) else (0, machine true m.now)

abbrev unlock : Machine → ℕ × Machine
unlock m = if m.held then (0, machine false m.now) else (1, m)

abbrev destroy : Machine → ℕ × Machine
destroy m = (if m.held then 16 else 0, m)

abbrev later : ℕ → ℕ → ℕ
later a b = if ltb a b then b else a

abbrev timedwait : CondAttr → TimeSpec → Machine → ℕ × Machine
timedwait a d m =
    if ltb_ℤ d.nsec (pos 0)
    then (einval, m)
    else (etimedout, machine m.held (later m.now (nanoseconds d)))

abbrev time : Clock → Machine → TimeSpec
time c m = record { sec = m.now / 1000000000; nsec = pos (m.now % 1000000000) }

pub lock_holds : (m : Machine) → (lock m).0 ≡ 0 → (lock m).1.held ≡ true
lock_holds m got = ground arith

pub trylock_holds : (m : Machine) → (trylock m).0 ≡ 0 → (trylock m).1.held ≡ true
trylock_holds m got = ground arith

pub trylock_fails : (m : Machine) → (trylock m).0 ≢ 0 → (trylock m).1.held ≡ m.held
trylock_fails m failed = ground arith

pub unlock_frees : (m : Machine) → m.held ≡ true → (unlock m).1.held ≡ false
unlock_frees m held = ground arith

pub timedwait_holds :
    (a : CondAttr) (d : TimeSpec) (m : Machine) → m.held ≡ true → (timedwait a d m).1.held ≡ true
timedwait_holds a d m held = ground arith

pub timedwait_refuses :
    (a : CondAttr) (d : TimeSpec) (m : Machine) → d.nsec <ℤ pos 0 → (timedwait a d m).0 ≡ einval
timedwait_refuses a d m early = ground arith

pub timedwait_times_out :
    (a : CondAttr) (d : TimeSpec) (m : Machine)
    → (timedwait a d m).0 ≡ etimedout
    → nanoseconds d ≤ nanoseconds (time a.clock (timedwait a d m).1)
timedwait_times_out a d m out = ground arith

pub time-IsNormal : (c : Clock) (m : Machine) → IsNormal (time c m)
time-IsNormal c m = omega arith

abbrev pub alone : Pthread
alone = record {
  State = Machine;
  holds = λ m. m.held;
  mutex_lock = lock;
  mutex_trylock = trylock;
  mutex_unlock = unlock;
  mutex_destroy = destroy;
  cond_untimed_wait = λ m. (0, m);
  cond_timedwait = timedwait;
  cond_signal = λ m. (0, m);
  cond_broadcast = λ m. (0, m);
  cond_destroy = λ m. (0, m);
  time = time;
  lock_holds = lock_holds;
  trylock_holds = trylock_holds;
  trylock_fails = trylock_fails;
  unlock_frees = unlock_frees;
  wait_holds = λ m held. held;
  timedwait_holds = timedwait_holds;
  timedwait_refuses = timedwait_refuses;
  timedwait_times_out = timedwait_times_out;
  time_normal = time-IsNormal;
}
