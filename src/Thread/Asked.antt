-- ===== src/Thread/Asked.antt =====
-- A running thread that has been asked to exit: what its own steps and the calls of others do.
use tools_on_linux.Prelude.{
  ℕ, ◌+◌, ◌-◌, ◌≤◌, if_true, Bool, true, false, not, ◌||◌, ◌==◌, if◌then◌else◌, ◌≡◌, ◌⊎◌, inl, inr,
  refl, sym, subst, arith, Bool-cases,
}
use tools_on_linux.Thread.State.{Thread, request_exit_and_wait, exit_wait, join, join_wait}
use tools_on_linux.Thread.Loop.{
  Stage, starting, first_round, next_round, testing, looping, leaving, exiting, ended, loop_step,
  test_exit,
}
use tools_on_linux.Thread.Waiting.{Ask, exits, joins, ask, ask_again, in_loop}

-- How many steps the thread has to go, and how many calls of threadLoop it can still make.
abbrev pub steps_left : Stage → ℕ
steps_left starting = 6
steps_left looping = 5
steps_left first_round = 4
steps_left next_round = 4
steps_left (testing r) = 3
steps_left leaving = 2
steps_left exiting = 1
steps_left ended = 0

abbrev pub calls_left : Stage → ℕ
calls_left starting = 1
calls_left looping = 1
calls_left first_round = 0
calls_left next_round = 1
calls_left (testing r) = 0
calls_left leaving = 0
calls_left exiting = 0
calls_left ended = 0

-- The call of threadLoop in a step.
abbrev pub loop_call : Stage → ℕ
loop_call next_round = 1
loop_call starting = 0
loop_call first_round = 0
loop_call (testing r) = 0
loop_call looping = 0
loop_call leaving = 0
loop_call exiting = 0
loop_call ended = 0

-- A thread in its loop runs and has been asked to exit.
abbrev pub Asked : Thread → Stage → Type 0
Asked t at = (in_loop at ≡ false) ⊎ ((t.running ≡ true) × (t.exit_pending ≡ true))

-- Not before its first store.
abbrev pub has_started : Stage → Bool
has_started starting = false
has_started looping = true
has_started first_round = true
has_started next_round = true
has_started (testing r) = true
has_started leaving = true
has_started exiting = true
has_started ended = true

-- A call of another thread takes no request back from a running thread.
pub again-keeps : (a : Ask) (t : Thread) → t.running ≡ true → (ask_again a t).1 ≡ t
unfolding exit_wait join_wait
again-keeps exits t on = rw on refl
again-keeps joins t on = rw on refl

pub ask-keeps :
    (a : Ask) (self : ℕ) (t : Thread)
    → t.running ≡ true
    → t.exit_pending ≡ true
    → ((ask a self t).1.running ≡ true) × ((ask a self t).1.exit_pending ≡ true)
unfolding request_exit_and_wait join exit_wait join_wait
ask-keeps exits self t on pending = elim (Bool-cases (t.thread == self)) [
  | inl own ↦ rw own (on, pending)
  | inr other ↦ rw other (ground arith)
]
ask-keeps joins self t on pending = elim (Bool-cases (t.thread == self)) [
  | inl own ↦ rw own (on, pending)
  | inr other ↦ rw other (ground arith)
]

asked_now :
    (t : Thread) (at : Stage)
    → in_loop at ≡ true
    → Asked t at
    → (t.running ≡ true) × (t.exit_pending ≡ true)
asked_now t at looped (inl off) = cc
asked_now t at looped (inr both) = both

-- What a step of the started thread does to it.
pub record Onward (at : Stage) (next : Thread × Stage) : Type 0 where
  pub started : has_started next.1 ≡ true
  pub asked : Asked next.0 next.1
  pub steps : steps_left next.1 ≡ steps_left at - 1
  pub fewer_calls : loop_call at + calls_left next.1 ≤ calls_left at

pub onward :
    (result : Bool) (t : Thread) (at : Stage)
    → has_started at ≡ true
    → Asked t at
    → Onward at (loop_step result t at)
unfolding loop_step test_exit
onward result t starting started asked = cc
onward result t first_round started asked = record {
  started = refl;
  asked = inr (asked_now t first_round refl asked);
  steps = refl;
  fewer_calls = omega arith;
}
onward result t next_round started asked = record {
  started = refl;
  asked = inr (asked_now t next_round refl asked);
  steps = refl;
  fewer_calls = omega arith;
}
onward result t (testing r) started asked =
    let now = asked_now t (testing r) refl asked in
    let leaves : (not r || t.exit_pending) ≡ true = ground (arith, now.1) in
    subst (λ s. Onward (testing r) s)
      (sym (if_true (not r || t.exit_pending) _ (t, looping) leaves))
      (record { started = refl; asked = inl refl; steps = refl; fewer_calls = omega arith })
onward result t looping started asked =
    let now = asked_now t looping refl asked in
    subst (λ b. Onward looping (t, (if b then next_round else leaving))) (sym now.0)
      (record { started = refl; asked = inr now; steps = refl; fewer_calls = omega arith })
onward result t leaving started asked = record {
  started = refl;
  asked = inl refl;
  steps = refl;
  fewer_calls = omega arith;
}
onward result t exiting started asked = record {
  started = refl;
  asked = inl refl;
  steps = refl;
  fewer_calls = omega arith;
}
onward result t ended started asked = record {
  started = refl;
  asked = inl refl;
  steps = refl;
  fewer_calls = omega arith;
}
