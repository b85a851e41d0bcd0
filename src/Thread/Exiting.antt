-- ===== src/Thread/Exiting.antt =====
-- A request to exit that reaches a running thread.
use tools_on_linux.Prelude.{
  ℕ, ◌+◌, ◌≤◌, ◌<◌, ap, ◌∙◌, true, ◌==◌, List, ◌≡◌, ◌⊎◌, inl, inr, refl, sym, subst, arith,
  Bool-cases,
}
use tools_on_linux.Thread.State.{Thread, request_exit}
use tools_on_linux.Thread.Loop.{
  Stage, starting, first_round, next_round, testing, looping, leaving, exiting, ended,
}
use tools_on_linux.Thread.Waiting.{
  Caller, World, world, works, Step, thread_works, requests_exit, asks, asks_again, wakes_by_itself,
  Reach, here, later, in_loop,
}
use tools_on_linux.Thread.Asked.{
  steps_left, calls_left, loop_call, Asked, has_started, again-keeps, ask-keeps, onward,
}

-- A step of the started thread, and its calls of threadLoop.
abbrev pub own_step : {v w : World} → Step v w → ℕ
own_step (thread_works result w) = 1
own_step (requests_exit t at cs) = 0
own_step (asks a self t u reply at pre post runs) = 0
own_step (asks_again a t u reply at pre post runs) = 0
own_step (wakes_by_itself a t at pre post) = 0

abbrev pub own_call : {v w : World} → Step v w → ℕ
own_call (thread_works result w) = loop_call w.stage
own_call (requests_exit t at cs) = 0
own_call (asks a self t u reply at pre post runs) = 0
own_call (asks_again a t u reply at pre post runs) = 0
own_call (wakes_by_itself a t at pre post) = 0

-- The same of a run.
abbrev pub thread_steps : {v w : World} → Reach v w → ℕ
thread_steps here = 0
thread_steps (later before step) = thread_steps before + own_step step

abbrev pub loop_calls : {v w : World} → Reach v w → ℕ
loop_calls here = 0
loop_calls (later before step) = loop_calls before + own_call step

-- The invariant of a run, with the steps and calls so far.
record Exits (steps calls : ℕ) (w : World) : Type 0 where
  started : has_started w.stage ≡ true
  asked : Asked w.object w.stage
  in_time : (steps_left w.stage ≡ 0) ⊎ (steps + steps_left w.stage ≤ 5)
  few_calls : calls + calls_left w.stage ≤ 1

-- A step of another thread.
beside-Exits :
    (n k : ℕ) (t u : Thread) (at : Stage) (cs ds : List Caller)
    → (t.running ≡ true → t.exit_pending ≡ true → (u.running ≡ true) × (u.exit_pending ≡ true))
    → Exits n k (world t at cs)
    → Exits (n + 0) (k + 0) (world u at ds)
beside-Exits n k t u at cs ds keeps e = record {
  started = e.started;
  asked = elim e.asked [ inl off ↦ inl off | inr both ↦ inr (keeps both.0 both.1) ];
  in_time = elim e.in_time [ inl over ↦ inl over | inr left ↦ inr (omega (arith, left)) ];
  few_calls = omega (arith, e.few_calls);
}

Step-Exits :
    (n k : ℕ) {v w : World} (s : Step v w) → Exits n k v → Exits (n + own_step s) (k + own_call s) w
unfolding works request_exit
Step-Exits n k (thread_works result w) e =
    let on = onward result w.object w.stage e.started e.asked in
    record {
      started = on.started;
      asked = on.asked;
      in_time = elim e.in_time [
        | inl over ↦ inl (omega (arith, on.steps, over))
        | inr left ↦ ground (arith, on.steps, left)
      ];
      few_calls = omega (arith, on.fewer_calls, e.few_calls);
    }
Step-Exits n k (requests_exit t at cs) e =
    beside-Exits n k t (request_exit t) at cs cs (λ on pending. (on, refl)) e
Step-Exits n k (asks a self t u reply at pre post runs) e =
    beside-Exits n k t u at _ _
      (λ on pending.
        subst (λ r. (r.1.running ≡ true) × (r.1.exit_pending ≡ true)) runs
          (ask-keeps a self t on pending))
      e
Step-Exits n k (asks_again a t u reply at pre post runs) e =
    beside-Exits n k t u at _ _
      (λ on pending.
        subst (λ s. (s.running ≡ true) × (s.exit_pending ≡ true))
          (sym (again-keeps a t on) ∙ ap (λ r. r.1) runs) (on, pending))
      e
Step-Exits n k (wakes_by_itself a t at pre post) e =
    beside-Exits n k t t at _ _ (λ on pending. (on, pending)) e

Reach-Exits : {v w : World} (r : Reach v w) → Exits 0 0 v → Exits (thread_steps r) (loop_calls r) w
Reach-Exits here e = e
Reach-Exits (later before step) e =
    Step-Exits (thread_steps before) (loop_calls before) step (Reach-Exits before e)

at_end : (at : Stage) → steps_left at ≡ 0 → at ≡ ended
at_end ended none_left = refl
at_end _ none_left = absurd (omega (arith, none_left))

from_here :
    (at : Stage)
    → in_loop at ≡ true
    → (has_started at ≡ true) × (steps_left at ≤ 5) × (calls_left at ≤ 1)
from_here starting looped = cc
from_here leaving looped = cc
from_here exiting looped = cc
from_here ended looped = cc
from_here first_round looped = (refl, omega arith, omega arith)
from_here next_round looped = (refl, omega arith, omega arith)
from_here (testing r) looped = (refl, omega arith, omega arith)
from_here looping looped = (refl, omega arith, omega arith)

-- A request to exit that finds the thread in its loop is kept and obeyed: in every interleaving with any
-- number of callers of requestExit, requestExitAndWait and join, the thread calls threadLoop at most
-- once more and is at its end after five of its own steps, whatever threadLoop returns.
pub Reach-exits :
    (t : Thread) (at : Stage) (cs : List Caller) (w : World) (r : Reach (world t at cs) w)
    → in_loop at ≡ true
    → t.running ≡ true
    → t.exit_pending ≡ true
    → (loop_calls r ≤ 1) × ((w.stage ≡ ended) ⊎ (thread_steps r < 5))
Reach-exits t at cs w r looped on pending =
    let (started, steps, calls) = from_here at looped in
    let e = Reach-Exits r (record {
      started = started;
      asked = inr (on, pending);
      in_time = inr (omega (arith, steps));
      few_calls = omega (arith, calls);
    }) in
    (
      omega (arith, e.few_calls),
      elim (Bool-cases (steps_left w.stage == 0)) [
        | inl over ↦ inl (at_end w.stage (ground (arith, over)))
        | inr left ↦ inr (ground (arith, left, e.in_time))
      ],
    )
