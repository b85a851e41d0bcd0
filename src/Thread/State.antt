-- ===== src/Thread/State.antt =====
-- The fields of class Thread (Thread.h) and the methods that other threads call. Each method runs
-- under mLock but where it waits on mCondition.
use tools_on_linux.ErrorCode.{no_error, error_would_block, error_unknown, error_invalid_operation}
use tools_on_linux.Prelude.{ℕ, ◌-◌, ◌^◌, Bool, true, false, Option, none, some, ◌==◌, if◌then◌else◌}
use tools_on_linux.Prelude.Int.{ℤ}

-- pthread_t(-1)
abbrev pub no_thread : ℕ
no_thread = 2 ^ 64 - 1

-- `broadcasts` counts the broadcasts of mCondition.
pub record Thread : Type 0 where
  pub thread : ℕ
  pub thread_name : ℕ
  pub status : ℤ
  pub exit_pending : Bool
  pub running : Bool
  pub broadcasts : ℕ

-- The constructor; mThreadName has no initial value.
unfoldable pub new_thread : ℕ → Thread
new_thread name = record {
  thread = no_thread;
  thread_name = name;
  status = no_error;
  exit_pending = false;
  running = false;
  broadcasts = 0;
}

-- createThread: `created` is the thread that pthread_create gives, or `none` for an error. The
-- result, and the id where there is one.
unfoldable pub create_thread : Option ℕ → ℕ → ℕ × ℕ
create_thread none thread_id = (0, thread_id)
create_thread (some id) thread_id = (1, id)

-- `run` stores through `&mThread`, and names the thread only where it starts one.
unfoldable pub run : Option ℕ → ℕ → Thread → ℤ × Thread
run created name t =
    if t.running
    then (error_invalid_operation, t)
    else let made = create_thread created no_thread in
      if made.0 == 0
      then (
        error_unknown,
        record t {
          thread = no_thread;
          thread_name = name;
          status = error_unknown;
          exit_pending = false;
          running = false;
        },
      )
      else (
        no_error,
        record t { thread = made.1; thread_name = name; status = no_error; exit_pending = false },
      )

unfoldable pub request_exit : Thread → Thread
request_exit t = record t { exit_pending = true }

-- A method that may sleep on mCondition: it has returned, or it waits with the lock given up.
pub data Reply : Type 0 where
  returned : ℤ → Reply
  waits : Reply

-- The head of the waiting loop of requestExitAndWait, where a woken thread comes back.
unfoldable pub exit_wait : Thread → Reply × Thread
exit_wait t =
    if t.running then (waits, t) else (returned t.status, record t { exit_pending = false })

-- `self` is the calling thread.
unfoldable pub request_exit_and_wait : ℕ → Thread → Reply × Thread
request_exit_and_wait self t =
    if t.thread == self
    then (returned error_would_block, t)
    else exit_wait (record t { exit_pending = true })

-- The head of the waiting loop of join.
unfoldable pub join_wait : Thread → Reply × Thread
join_wait t = if t.running then (waits, t) else (returned t.status, t)

unfoldable pub join : ℕ → Thread → Reply × Thread
join self t = if t.thread == self then (returned error_would_block, t) else join_wait t

unfoldable pub is_running : Thread → Bool
is_running t = t.running

unfoldable pub is_exit_pending : Thread → Bool
is_exit_pending t = t.exit_pending
