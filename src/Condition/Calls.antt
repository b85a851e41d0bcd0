-- ===== src/Condition/Calls.antt =====
-- The methods of Condition.h over pthread. A method gives the error number of pthread negated.
use tools_on_linux.Prelude.{ℕ, true, ◌==◌, Option, none, some, if◌then◌else◌}
use tools_on_linux.Prelude.Int.{ℤ, negated}
use tools_on_linux.Pthread.{Pthread, CondAttr, condattr_init, monotonic}
use tools_on_linux.Condition.Deadline.{TimeSpec, deadline, deadline_us}

-- Condition::PRIVATE and Condition::SHARED
abbrev pub private_condition : ℕ
private_condition = 0

abbrev pub shared_condition : ℕ
shared_condition = 1

-- mCond, as it was initialised.
pub record Condition : Type 0 where
  pub attr : CondAttr

unfoldable pub new_condition_of : ℕ → Condition
new_condition_of type =
    let attr = record condattr_init { clock = monotonic } in
    record {
      attr = if type == shared_condition then record attr { process_shared = true } else attr;
    }

unfoldable pub new_condition : Condition
unfolding new_condition_of
new_condition = new_condition_of private_condition

pub data WakeUpType : Type 0 where
  wake_up_one wake_up_all : WakeUpType

module _ (p : Pthread) where
  open p use {
    State, cond_untimed_wait, cond_timedwait, cond_signal, cond_broadcast, cond_destroy, time,
  }

  unfoldable pub wait : State → ℤ × State
  wait s = let (e, s') = cond_untimed_wait s in (negated e, s')

  -- With the deadline worked out, if it could be.
  abbrev pub wait_until : Condition → Option TimeSpec → State → Option (ℤ × State)
  wait_until c none s = none
  wait_until c (some d) s = let (e, s') = cond_timedwait c.attr d s in some (negated e, s')

  -- `none` where a signed number overflows.
  unfoldable pub wait_relative : Condition → ℤ → State → Option (ℤ × State)
  wait_relative c reltime s = wait_until c (deadline (time monotonic s) reltime) s

  unfoldable pub wait_relative_us : Condition → ℤ → State → Option (ℤ × State)
  wait_relative_us c reltime s = wait_until c (deadline_us (time monotonic s) reltime) s

  unfoldable pub signal : State → State
  signal s = (cond_signal s).1

  unfoldable pub broadcast : State → State
  broadcast s = (cond_broadcast s).1

  -- signal(WakeUpType)
  unfoldable pub signal_as : WakeUpType → State → State
  unfolding signal broadcast
  signal_as wake_up_one s = signal s
  signal_as wake_up_all s = broadcast s

  -- The destructor.
  unfoldable pub delete_condition : State → State
  delete_condition s = (cond_destroy s).1
