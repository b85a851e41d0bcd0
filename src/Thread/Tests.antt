-- ===== src/Thread/Tests.antt =====
-- Runs of Thread on concrete objects, and the theorems applied to them.
use tools_on_linux.Thread.Waiting.{
  exits, joins, idle, asleep, awake, ask_again, world, works, Reach, here, later, thread_works,
  asks, requests_exit, sleepers, in_loop,
}
use tools_on_linux.Thread.Awaited.{Reach-all_woken}
use tools_on_linux.Thread.Exiting.{Reach-exits, loop_calls, thread_steps}
use tools_on_linux.Thread.Restarting.{restart-cut_short}
use tools_on_linux.ErrorCode.{no_error}
use tools_on_linux.Thread.Life.{stopped, loop_runs-ends}
use tools_on_linux.Thread.Joining.{exit_request-lost}
use tools_on_linux.Prelude.{
  ◌⊎◌, ◌<◌, ◌≤◌, ℕ, zero, suc, ◌≡◌, refl, true, false, some, [], ◌∷◌, arith, Bool,
}
use tools_on_linux.Thread.Loop.{
  loop_step, leaving, first_round, next_round, testing, test_exit, loop_runs, starting, ended,
  ready_to_run, ready_to_exit, thread_loop,
}
use tools_on_linux.Thread.State.{
  waits, join_wait, request_exit, run, request_exit_and_wait, join, Thread, returned,
}

abbrev fresh : Thread
fresh = record {
  thread = 3;
  thread_name = 8;
  status = no_error;
  exit_pending = false;
  running = false;
  broadcasts = 0;
}

-- A threadLoop that is true twice.
abbrev twice : ℕ → Bool
twice zero = true
twice (suc zero) = true
twice (suc (suc n)) = false

twice-true : (i : ℕ) → i < 2 → twice i ≡ true
twice-true zero h = refl
twice-true (suc zero) h = refl
twice-true (suc (suc i)) h = ground arith

loop_runs-ends_example : loop_runs 14 twice 0 fresh starting ≡ (
  ready_to_run ∷ thread_loop ∷ thread_loop ∷ thread_loop ∷ ready_to_exit ∷ [],
  (stopped fresh, ended),
)
loop_runs-ends_example = loop_runs-ends twice 2 fresh twice-true refl refl

exit_request-lost_example :
    let u = request_exit_and_wait 7 (run (some 4) 9 fresh).1 in
    (u.0 ≡ returned no_error)
    × (loop_runs 14 twice 0 u.1 starting ≡ (
      ready_to_run ∷ thread_loop ∷ thread_loop ∷ thread_loop ∷ ready_to_exit ∷ [],
      (stopped u.1, ended),
    ))
exit_request-lost_example = exit_request-lost twice 2 4 7 9 fresh twice-true refl refl (omega arith)

restart-cut_short_example :
    let u = (loop_step true (run (some 5) 9 (stopped fresh)).1 starting).0 in
    let v = (loop_step true u leaving).0 in
    let r = record u { running = false } in
    (join 7 u ≡ (waits, u))
    × (loop_runs 5 (λ _. true) 3 v first_round ≡ (ready_to_run ∷ ready_to_exit ∷ [], (r, ended)))
    × (loop_runs 5 (λ _. true) 3 v next_round ≡ (thread_loop ∷ ready_to_exit ∷ [], (r, ended)))
restart-cut_short_example =
    restart-cut_short (λ _. true) 3 5 7 9 (stopped fresh) refl (λ e. absurd (omega arith)) refl

-- A caller of join sleeps, an exit is asked for, and the thread wakes the caller.
abbrev alive : Thread
alive = record fresh { running = true }

abbrev asked : Thread
asked = record alive { exit_pending = true }

joined : Reach (world fresh starting (idle ∷ [])) (world (stopped fresh) leaving (awake joins ∷ []))
unfolding works loop_step test_exit join join_wait request_exit
joined =
    later
      (later
        (later
          (later (later here (thread_works true (world fresh starting (idle ∷ []))))
            (asks joins 7 alive alive waits first_round [] [] refl))
          (requests_exit alive first_round (asleep joins ∷ [])))
        (thread_works true (world asked first_round (asleep joins ∷ []))))
      (thread_works true (world asked (testing true) (asleep joins ∷ [])))

Reach-all_woken_example :
    (false ≡ in_loop leaving)
    × ((in_loop leaving ≡ true)
        ⊎ ((sleepers (awake joins ∷ []) ≡ 0)
            × ((ask_again exits (stopped fresh)).0 ≡ returned no_error)
            × ((ask_again joins (stopped fresh)).0 ≡ returned no_error)))
Reach-all_woken_example =
    Reach-all_woken fresh (idle ∷ []) (world (stopped fresh) leaving (awake joins ∷ [])) refl refl
      joined

-- The request is there, and the thread takes two steps: out of its loop.
obeyed :
    Reach
      (world asked first_round (asleep joins ∷ []))
      (world (stopped fresh) leaving (awake joins ∷ []))
unfolding works loop_step test_exit
obeyed =
    later (later here (thread_works true (world asked first_round (asleep joins ∷ []))))
      (thread_works true (world asked (testing true) (asleep joins ∷ [])))

Reach-exits_example : (loop_calls obeyed ≤ 1) × ((leaving ≡ ended) ⊎ (thread_steps obeyed < 5))
Reach-exits_example =
    Reach-exits asked first_round (asleep joins ∷ [])
      (world (stopped fresh) leaving (awake joins ∷ [])) obeyed refl refl refl
