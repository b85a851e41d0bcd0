-- ===== src/Thread/Joining.antt =====
-- run, requestExitAndWait and join by what they give and change.
use tools_on_linux.Thread.Life.{stopped, rounds, loop_runs-ends, loop_calls}
use tools_on_linux.ErrorCode.{no_error, error_would_block, error_unknown, error_invalid_operation}
use tools_on_linux.Thread.Loop.{loop_runs, starting, ended, ready_to_run, ready_to_exit}
use tools_on_linux.Thread.State.{
  run, request_exit_and_wait, request_exit, new_thread, join_wait, join, exit_wait, create_thread,
  Thread, returned, waits,
}
use tools_on_linux.Prelude.{if_false, suc, ne→==_false, ◌<◌, ◌++◌, ◌∷◌, []}
use tools_on_linux.Prelude.{
  ℕ, Bool, true, false, Option, none, some, ◌==◌, if◌then◌else◌, ◌≡◌, ◌≢◌, refl, ◌∙◌, ap, inl, inr,
  Bool-cases, subst, sym,
}
use tools_on_linux.Prelude.Int.{ℤ}

-- What run comes to where it does not refuse.
unfoldable pub started : Option ℕ → ℕ → Thread → ℤ × Thread
unfolding new_thread
started none name t =
    (error_unknown, record (new_thread name) { status = error_unknown; broadcasts = t.broadcasts })
started (some id) name t =
    (no_error, record (new_thread name) { thread = id; broadcasts = t.broadcasts })

run_cases :
    (created : Option ℕ) (name : ℕ) (t : Thread) (b : Bool)
    → let u = record t { running = b } in
      run created name u ≡ (if b then (error_invalid_operation, u) else started created name t)
unfolding run new_thread create_thread started
run_cases created name t true = refl
run_cases none name t false = refl
run_cases (some id) name t false = refl

-- run refuses a running thread and leaves it; otherwise the object is as new but for its name, with
-- the id of the thread that was started, or with ERROR_UNKNOWN where none was.
pub run-result :
    (created : Option ℕ) (name : ℕ) (t : Thread)
    → run created name t
      ≡ (if t.running then (error_invalid_operation, t) else started created name t)
run-result created name t = run_cases created name t t.running

exit_cases :
    (t : Thread) (b : Bool)
    → let u = record t { running = b } in
      (exit_wait (request_exit u) ≡ (
        if b
        then (waits, request_exit u)
        else (returned t.status, record u { exit_pending = false })))
      × (join_wait u ≡ (if b then waits else returned t.status, u))
unfolding exit_wait join_wait request_exit
exit_cases t true = (refl, refl)
exit_cases t false = (refl, refl)

-- Both waiting methods refuse the object's own thread, wait while it runs, and give the status
-- otherwise; requestExitAndWait asks for the exit before it waits, and takes that back at its end.
pub exit-join :
    (self : ℕ) (t : Thread)
    → (request_exit_and_wait self t ≡ (
        if t.thread == self
        then (returned error_would_block, t)
        else if t.running
        then (waits, request_exit t)
        else (returned t.status, record t { exit_pending = false })))
      × (join self t ≡ (
          if t.thread == self
          then (returned error_would_block, t)
          else (if t.running then waits else returned t.status, t)))
unfolding request_exit_and_wait join request_exit
exit-join self t = elim (Bool-cases (t.thread == self)) [
  | inl own ↦ rw own (refl, refl)
  | inr other ↦ rw other (exit_cases t t.running)
]

-- requestExitAndWait, called by another thread on an object that does not run, between run and the first step of the started thread: it returns at once and
-- takes its request back, and the thread then calls threadLoop until that returns false.
pub exit_request-lost :
    (results : ℕ → Bool) (n id self name : ℕ) (t : Thread)
    → ((i : ℕ) → i < n → results i ≡ true)
    → results n ≡ false
    → t.running ≡ false
    → id ≢ self
    → let u = request_exit_and_wait self (run (some id) name t).1 in
      (u.0 ≡ returned no_error)
      × (loop_runs (suc (suc (suc (suc (rounds n))))) results 0 u.1 starting
          ≡ (ready_to_run ∷ loop_calls (suc n) ++ ready_to_exit ∷ [], (stopped u.1, ended)))
unfolding new_thread started
exit_request-lost results n id self name t more stop idle other =
    subst
      (λ u.
        (u.0 ≡ returned no_error)
        × (loop_runs (suc (suc (suc (suc (rounds n))))) results 0 u.1 starting
            ≡ (ready_to_run ∷ loop_calls (suc n) ++ ready_to_exit ∷ [], (stopped u.1, ended))))
      (sym early) (refl, loop_runs-ends results n new_object more stop refl)
  where
    new_object : Thread
    new_object = record (new_thread name) { thread = id; broadcasts = t.broadcasts }

    early : request_exit_and_wait self (run (some id) name t).1 ≡ (returned no_error, new_object)
    early =
        ap (λ r. request_exit_and_wait self r.1)
          (run-result (some id) name t ∙ if_false t.running _ _ idle)
        ∙ (exit-join self new_object).0
        ∙ rw (ne→==_false id self other) refl
