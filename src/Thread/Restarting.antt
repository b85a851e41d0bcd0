-- ===== src/Thread/Restarting.antt =====
-- run while the thread of an earlier run is past its loop but has not stored `mRunning = false` yet.
use tools_on_linux.Prelude.{
  ℕ, Bool, true, false, some, [], ◌∷◌, ◌==◌, ◌≡◌, ◌≢◌, refl, ◌∙◌, ap, subst, sym, if_false,
  ne→==_false,
}
use tools_on_linux.Thread.State.{run, join, join_wait, new_thread, Thread, waits}
use tools_on_linux.Thread.Loop.{
  loop_step, loop_runs, starting, leaving, first_round, next_round, ended, thread_loop,
  ready_to_run, ready_to_exit, test_exit,
}
use tools_on_linux.Thread.Joining.{started, run-result}

-- Where a thread of an earlier run still has its store before it when the next one has started: a join
-- of the new thread waits; and behind that store the new thread goes to its end, though nobody asked for
-- its exit: from the first round without a call of threadLoop, from a later one after one call that asks
-- to be called again. It leaves every field but mRunning as it was when the join began to wait, the
-- number of broadcasts included. The object does not run at first, and the caller of join is another
-- thread.
pub restart-cut_short :
    (results : ℕ → Bool) (k id self name : ℕ) (t : Thread)
    → t.running ≡ false
    → id ≢ self
    → results k ≡ true
    → let u = (loop_step true (run (some id) name t).1 starting).0 in
      let v = (loop_step true u leaving).0 in
      let r = record u { running = false } in
      (join self u ≡ (waits, u))
      × (loop_runs 5 results k v first_round ≡ (ready_to_run ∷ ready_to_exit ∷ [], (r, ended)))
      × (loop_runs 5 results k v next_round ≡ (thread_loop ∷ ready_to_exit ∷ [], (r, ended)))
unfolding loop_step loop_runs test_exit started new_thread join join_wait
restart-cut_short results k id self name t idle other again =
    subst
      (λ (s : Thread).
        let u = (loop_step true s starting).0 in
        let v = (loop_step true u leaving).0 in
        let r = record u { running = false } in
        (join self u ≡ (waits, u))
        × (loop_runs 5 results k v first_round ≡ (ready_to_run ∷ ready_to_exit ∷ [], (r, ended)))
        × (loop_runs 5 results k v next_round ≡ (thread_loop ∷ ready_to_exit ∷ [], (r, ended))))
      (sym (ap (λ r. r.1) (run-result (some id) name t ∙ if_false t.running _ _ idle)))
      (if_false (id == self) _ _ (ne→==_false id self other), refl, rw again refl)
