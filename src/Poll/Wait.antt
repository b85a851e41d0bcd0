-- ===== src/Poll/Wait.antt =====
-- Poll::wait in the atomic steps that it takes beside other threads, and the threads that call it
-- while one more thread calls setFlushing(true).
use tools_on_linux.Poll.Wakeup.{verdict}
use tools_on_linux.Poll.Control.{raise_wakeup, must_wake, Io, flag}
use tools_on_linux.Poll.State.{Fds, positive, Poll}
use tools_on_linux.Prelude.{
  zero, suc, suc, ℕ, ◌+◌, ◌-◌, ◌%◌, ◌^◌, Bool, true, Option, List, ◌∷◌, ◌++◌, ◌==◌, if◌then◌else◌,
  ◌≡◌, some, none,
}
use tools_on_linux.Prelude.Int.{ltb_ℤ, ℤ, negsuc, pos, pos_part, signed32}
use tools_on_linux.Prelude.Outcome.{ok}

abbrev pub eperm : ℕ
eperm = 1

abbrev pub ebusy_flushing : ℕ
ebusy_flushing = 16

-- Where a thread stands in wait: before the load of mWaiting, between the load and the increment,
-- before the first test of mFlushing, in poll(2), before the second test, before the decrement with
-- the result and errno, and at the end.
pub data Stage : Type 0 where
  outside : Stage
  loaded : ℕ → Stage
  entered : Stage
  polling : Stage
  polled : ℤ → Stage
  leaving : ℤ → ℕ → Stage
  finished : ℤ → ℕ → Stage

-- What poll(2) gives: the count, and the entries with their revents.
pub record Answer : Type 0 where
  pub count : ℤ
  pub fds : Option Fds

-- One step of a thread. errno is 0 where wait does not set it.
unfoldable pub wait_step : Answer → Poll → Stage → Poll × Stage
wait_step a p outside = (p, loaded p.waiting)
wait_step a p (loaded old) = (
  record p { waiting = (p.waiting + 1) % 2 ^ 32 },
  if positive old then leaving (negsuc 0) eperm else entered,
)
wait_step a p entered = (p, if p.flushing == 0 then polling else leaving (negsuc 0) ebusy_flushing)
wait_step a p polling = (record p { fds = a.fds }, polled a.count)
wait_step a p (polled n) =
    (p, if p.flushing == 0 then leaving n 0 else leaving (negsuc 0) ebusy_flushing)
wait_step a p (leaving n e) =
    (record p { waiting = (p.waiting + 2 ^ 32 - 1) % 2 ^ 32 }, finished n e)
wait_step a p (finished n e) = (p, finished n e)

-- The timeout that poll(2) is given: -1, or the argument as it is, of which the int that poll(2) takes
-- holds the lowest 32 bits.
unfoldable pub poll_timeout : ℤ → ℤ
poll_timeout timeout_ns =
    if ltb_ℤ (pos 0) timeout_ns then signed32 (pos_part timeout_ns % 2 ^ 32) else negsuc 0

unfoldable pub wait_steps : Answer → ℕ → Poll × Stage → Poll × Stage
wait_steps a zero s = s
wait_steps a (suc n) s = wait_steps a n (wait_step a s.0 s.1)

-- wait with no other thread beside it: at most six steps. `poll` is what poll(2) gives for a timeout.
unfoldable pub wait : (ℤ → Answer) → ℤ → Poll → Poll × Stage
wait poll timeout_ns p = wait_steps (poll (poll_timeout timeout_ns)) 6 (p, outside)

-- The thread in setFlushing(true): before the store, before the tests, before raiseWakeup, and at the
-- end.
pub data Setter : Type 0 where
  before_store after_store raising flushed_all : Setter

pub record System : Type 0 where
  pub poll : Poll
  pub waiters : List Stage
  pub setter : Setter

abbrev pub system : Poll → List Stage → Setter → System
system p ws st = record { poll = p; waiters = ws; setter = st }

-- Any thread takes its next step; write(2) on the control socket works.
pub data Step : System → System → Type 0 where
  waiter_step :
      (a : Answer) (p : Poll) (pre post : List Stage) (now : Stage) (st : Setter)
      → Step
          (system p (pre ++ now ∷ post) st)
          (system (wait_step a p now).0 (pre ++ (wait_step a p now).1 ∷ post) st)
  store_flag :
      (p : Poll) (ws : List Stage)
      → Step (system p ws before_store) (system (record p { flushing = flag true }) ws after_store)
  test_waiting :
      (p : Poll) (ws : List Stage)
      → Step (system p ws after_store) (system p ws (if must_wake p then raising else flushed_all))
  raise :
      (io : List Io) (p r : Poll) (ws : List Stage) (b : Bool)
      → verdict io ≡ some none
      → raise_wakeup io p ≡ ok b r
      → Step (system p ws raising) (system r ws flushed_all)

pub data Reach (start : System) : System → Type 0 where
  here : Reach start start
  later : {s t : System} → Reach start s → Step s t → Reach start t
