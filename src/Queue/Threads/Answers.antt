-- ===== src/Queue/Threads/Answers.antt =====
-- The abstract queue: what a call answers, by the list of contents.
use tools_on_linux.Queue.Pushing.{push_events, push_contents, push_code}
use tools_on_linux.Queue.Peeking.{peek_result}
use tools_on_linux.Queue.Flushing.{flush_events}
use tools_on_linux.Queue.Threads.System.{
  counts, asks_empty, asks_allowed, flushes, peeks, pops, pushes, of_bool, Request,
}
use tools_on_linux.Queue.State.{
  waits, signal, returned, q_ok, q_err_num_elements, q_err_nonewdata, cond_put, cond_get, Reply,
  Queue, Event,
}
use tools_on_linux.Prelude.{
  ℕ, ◌==◌, Bool, true, false, ◌&&◌, List, [], ◌∷◌, if◌then◌else◌, length, get_elem?,
}
use tools_on_linux.Prelude.Int.{ℤ, pos_part, signed32}
use tools_on_linux.Memory.{null}

-- The reply, the contents left, and the events sent.
pub record Answer : Type 0 where
  pub reply : Reply (ℤ × ℕ)
  pub contents : List ℕ
  pub events : List Event

abbrev pub answered : Reply (ℤ × ℕ) → List ℕ → List Event → Answer
answered reply xs es = record { reply = reply; contents = xs; events = es }

-- A push that does not sleep.
abbrev pub push_answer : ℤ → Queue → ℕ → List ℕ → Answer
push_answer code q ele xs =
    answered (returned (code, null)) (push_contents code q ele xs) (push_events code)

abbrev pub empty_answer : Bool → Bool → Answer
empty_answer true true = answered (waits cond_get) [] []
empty_answer true false = answered (returned (q_err_nonewdata, null)) [] []
empty_answer false allowed = answered (returned (q_err_num_elements, null)) [] []

abbrev pub pop_answer : Bool → Bool → List ℕ → Answer
pop_answer w allowed [] = empty_answer w allowed
pop_answer w allowed (x ∷ xs) = answered (returned (q_ok, x)) xs (signal cond_put ∷ [])

-- Only the settings of `q` are read, and its counter by `full`.
unfoldable pub answer : Request → Queue → List ℕ → Answer
answer (pushes w new ele) q xs =
    if w && q.allowed_new_data && q.used_element_cnts == q.capability
    then answered (waits cond_put) xs []
    else push_answer (push_code q new) q ele xs
answer (pops w) q xs = pop_answer w q.allowed_new_data xs
answer (peeks i) q xs = answered (returned (peek_result (get_elem? xs (pos_part i)))) xs []
answer (flushes fcb) q xs = answered (returned (q_ok, null)) [] (flush_events fcb xs)
answer counts q xs = answered (returned (signed32 (length xs), null)) xs []
answer asks_empty q xs = answered (returned (of_bool (length xs == 0), null)) xs []
answer asks_allowed q xs = answered (returned (of_bool q.allowed_new_data, null)) xs []
