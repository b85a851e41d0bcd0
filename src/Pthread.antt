-- ===== src/Pthread.antt =====
-- What Mutex.h and Condition.h take from pthread and from clock_gettime, as seen by one thread: a
-- parameter of their models. A state holds one mutex, one condition variable and the clocks; what the
-- other threads do while a call sleeps is part of the state that it gives back.
pub mod Machine
use tools_on_linux.Prelude.{ℕ, ◌≤◌, ◌≡◌, ◌≢◌, Bool, true, false}
use tools_on_linux.Prelude.Int.{pos, ◌<ℤ◌}
use tools_on_linux.Condition.Deadline.{TimeSpec, IsNormal, nanoseconds}

abbrev pub etimedout : ℕ
etimedout = 110

abbrev pub einval : ℕ
einval = 22

pub data Clock : Type 0 where
  realtime monotonic : Clock

-- A pthread_mutexattr_t and a pthread_condattr_t, which start private and with the clock realtime.
pub record MutexAttr : Type 0 where
  pub process_shared : Bool

pub record CondAttr : Type 0 where
  pub clock : Clock
  pub process_shared : Bool

abbrev pub mutexattr_init : MutexAttr
mutexattr_init = record { process_shared = false }

abbrev pub condattr_init : CondAttr
condattr_init = record { clock = realtime; process_shared = false }

-- Each call gives an error number, 0 for success. A wait gives the mutex back locked whatever it
-- returns, refuses a time with negative nanoseconds, and times out by the clock of the variable's
-- attributes, not before the time.
pub record Pthread : Type 1 where
  pub State : Type 0
  pub holds : State → Bool
  pub mutex_lock : State → ℕ × State
  pub mutex_trylock : State → ℕ × State
  pub mutex_unlock : State → ℕ × State
  pub mutex_destroy : State → ℕ × State
  pub cond_untimed_wait : State → ℕ × State
  pub cond_timedwait : CondAttr → TimeSpec → State → ℕ × State
  pub cond_signal : State → ℕ × State
  pub cond_broadcast : State → ℕ × State
  pub cond_destroy : State → ℕ × State
  pub time : Clock → State → TimeSpec
  pub lock_holds : (s : State) → (mutex_lock s).0 ≡ 0 → holds (mutex_lock s).1 ≡ true
  pub trylock_holds : (s : State) → (mutex_trylock s).0 ≡ 0 → holds (mutex_trylock s).1 ≡ true
  pub trylock_fails : (s : State) → (mutex_trylock s).0 ≢ 0 → holds (mutex_trylock s).1 ≡ holds s
  pub unlock_frees : (s : State) → holds s ≡ true → holds (mutex_unlock s).1 ≡ false
  pub wait_holds : (s : State) → holds s ≡ true → holds (cond_untimed_wait s).1 ≡ true
  pub timedwait_holds :
      (a : CondAttr) (d : TimeSpec) (s : State)
      → holds s ≡ true
      → holds (cond_timedwait a d s).1 ≡ true
  pub timedwait_refuses :
      (a : CondAttr) (d : TimeSpec) (s : State)
      → d.nsec <ℤ pos 0
      → (cond_timedwait a d s).0 ≡ einval
  pub timedwait_times_out :
      (a : CondAttr) (d : TimeSpec) (s : State)
      → (cond_timedwait a d s).0 ≡ etimedout
      → nanoseconds d ≤ nanoseconds (time a.clock (cond_timedwait a d s).1)
  pub time_normal : (c : Clock) (s : State) → IsNormal (time c s)
