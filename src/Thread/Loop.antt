-- ===== src/Thread/Loop.antt =====
-- Thread::_threadLoop, as the steps that the started thread takes beside the others. The methods that
-- the derived class overrides are calls that it makes.
use tools_on_linux.Thread.State.{no_thread, Thread}
use tools_on_linux.Prelude.{
  ℕ, zero, suc, ◌+◌, Bool, true, false, ◌||◌, not, List, [], ◌∷◌, ◌++◌, if◌then◌else◌,
}

-- What the loop calls of the derived class.
pub data Call : Type 0 where
  ready_to_run thread_loop ready_to_exit : Call

-- Where the started thread stands: before `mRunning = true`, at the head of the loop's body for the
-- first time and later, before the locked test with `result`, before `while (mRunning)`, behind the
-- loop, before readyToExit, and at the end.
pub data Stage : Type 0 where
  starting first_round next_round : Stage
  testing : Bool → Stage
  looping leaving exiting ended : Stage

-- The locked block at the end of the body: leave where threadLoop said so or an exit is pending.
unfoldable pub test_exit : Bool → Thread → Thread × Stage
test_exit result t =
    if not result || t.exit_pending
    then (
      record t {
        exit_pending = true;
        running = false;
        thread = no_thread;
        broadcasts = t.broadcasts + 1;
      },
      leaving,
    )
    else (t, looping)

-- One step, with what threadLoop returns if it is called. In the first round `result` stays true:
-- the call of threadLoop there is commented out.
unfoldable pub loop_step : Bool → Thread → Stage → Thread × Stage
loop_step result t starting = (record t { running = true }, first_round)
loop_step result t first_round = (t, testing true)
loop_step result t next_round = (t, testing result)
loop_step result t (testing r) = test_exit r t
loop_step result t looping = (t, if t.running then next_round else leaving)
loop_step result t leaving = (record t { running = false }, exiting)
loop_step result t exiting = (t, ended)
loop_step result t ended = (t, ended)

-- The call that the step makes.
abbrev pub calls : Stage → List Call
calls first_round = ready_to_run ∷ []
calls next_round = thread_loop ∷ []
calls exiting = ready_to_exit ∷ []
calls starting = []
calls (testing r) = []
calls looping = []
calls leaving = []
calls ended = []

-- How many calls of threadLoop were made, after the step.
abbrev pub after_call : Stage → ℕ → ℕ
after_call next_round k = k + 1
after_call starting k = k
after_call first_round k = k
after_call (testing r) k = k
after_call looping k = k
after_call leaving k = k
after_call exiting k = k
after_call ended k = k

-- The thread undisturbed, for as many steps as `n`, over what threadLoop returns call by call; the
-- calls it makes, in order.
unfoldable pub loop_runs : ℕ → (ℕ → Bool) → ℕ → Thread → Stage → List Call × (Thread × Stage)
loop_runs zero results k t at = ([], (t, at))
loop_runs (suc n) results k t at =
    let s = loop_step (results k) t at in
    let rest = loop_runs n results (after_call at k) s.0 s.1 in (calls at ++ rest.0, rest.1)
