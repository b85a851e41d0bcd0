-- ===== src/Thread/Life.antt =====
-- The started thread, undisturbed.
use tools_on_linux.Thread.State.{no_thread, Thread}
use tools_on_linux.Prelude.{
  sym, subst, ◌<◌, ℕ, zero, suc, ◌+◌, Bool, true, false, List, [], ◌∷◌, ◌++◌, ◌≡◌, refl, ◌∙◌, ap,
  arith,
}
use tools_on_linux.Thread.Loop.{
  test_exit, loop_step, loop_runs, Call, starting, next_round, ended, thread_loop, ready_to_run,
  ready_to_exit,
}

-- `n` calls of threadLoop.
abbrev pub loop_calls : ℕ → List Call
loop_calls zero = []
loop_calls (suc n) = thread_loop ∷ loop_calls n

-- How the object looks behind the loop.
abbrev pub stopped : Thread → Thread
stopped t = record t {
  exit_pending = true;
  running = false;
  thread = no_thread;
  broadcasts = t.broadcasts + 1;
}

-- The steps of a thread whose threadLoop is to be called `n + 1` times, from the second round on.
abbrev pub rounds : ℕ → ℕ
rounds zero = 4
rounds (suc n) = suc (suc (suc (rounds n)))

abbrev alive : Thread → Thread
alive t = record t { exit_pending = false; running = true }

add_zero : (k : ℕ) → k ≡ k + 0
add_zero k = omega arith

zero_add : (k : ℕ) → 0 + k ≡ k
zero_add k = omega arith

shift : (k i : ℕ) → k + 1 + i ≡ k + suc i
shift k i = omega arith

next_rounds :
    (results : ℕ → Bool) (n k : ℕ) (t : Thread)
    → ((i : ℕ) → i < n → results (k + i) ≡ true)
    → results (k + n) ≡ false
    → loop_runs (rounds n) results k (alive t) next_round
      ≡ (loop_calls (suc n) ++ ready_to_exit ∷ [], (stopped t, ended))
unfolding loop_runs loop_step test_exit
next_rounds results zero k t more stop = rw (ap results (add_zero k) ∙ stop) refl
next_rounds results (suc n) k t more stop = rw (ap results (add_zero k) ∙ more 0 (omega arith)) (
    ap (λ r. (thread_loop ∷ r.0, r.1))
      (next_rounds results n (k + 1) t
        (λ i h. ap results (shift k i) ∙ more (suc i) (omega (arith, h)))
        (ap results (shift k n) ∙ stop)))

-- A started thread calls readyToRun, then threadLoop until it returns false, then readyToExit, and
-- ends: it runs no more, its id is cleared, an exit is pending, and mCondition was broadcast once.
-- No other thread asks for an exit meanwhile.
pub loop_runs-ends :
    (results : ℕ → Bool) (n : ℕ) (t : Thread)
    → ((i : ℕ) → i < n → results i ≡ true)
    → results n ≡ false
    → t.exit_pending ≡ false
    → loop_runs (suc (suc (suc (suc (rounds n))))) results 0 t starting
      ≡ (ready_to_run ∷ loop_calls (suc n) ++ ready_to_exit ∷ [], (stopped t, ended))
unfolding loop_runs loop_step test_exit
loop_runs-ends results n t more stop calm =
    subst
      (λ b.
        loop_runs (suc (suc (suc (suc (rounds n))))) results 0 (record t { exit_pending = b })
          starting
        ≡ (ready_to_run ∷ loop_calls (suc n) ++ ready_to_exit ∷ [], (stopped t, ended)))
      (sym calm)
      (ap (λ r. (ready_to_run ∷ r.0, r.1))
        (next_rounds results n 0 t (λ i h. ap results (zero_add i) ∙ more i h)
          (ap results (zero_add n) ∙ stop)))

-- A thread that finds an exit pending when it starts never calls threadLoop.
pub loop_runs-exit_pending :
    (results : ℕ → Bool) (t : Thread)
    → t.exit_pending ≡ true
    → loop_runs 5 results 0 t starting ≡ (ready_to_run ∷ ready_to_exit ∷ [], (stopped t, ended))
unfolding loop_runs loop_step test_exit
loop_runs-exit_pending results t pending =
    subst
      (λ b.
        loop_runs 5 results 0 (record t { exit_pending = b }) starting
        ≡ (ready_to_run ∷ ready_to_exit ∷ [], (stopped t, ended)))
      (sym pending) refl
