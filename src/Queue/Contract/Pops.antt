-- ===== src/Queue/Contract/Pops.antt =====
-- Queue::pop, Queue::peek, Queue::flush and Queue::flushAndCallback.
use tools_on_linux.Queue.Flushing.{flush_elements-After, flush_events}
use tools_on_linux.Queue.Popping.{pop_element-After, pop_events, pop_contents, pop_result}
use tools_on_linux.Queue.Peeking.{peek_result, peek_element-runs, peek_element-runs, peek_result}
use tools_on_linux.Prelude.Int.{pos_part, ℤ}
use tools_on_linux.Queue.Represents.{After-same, After, IsValid}
use tools_on_linux.Memory.Chain.{contents, Cells}
use tools_on_linux.Queue.Calls.{lock_failed, flush_and_callback, flush, peek, pop}
use tools_on_linux.Prelude.{get_elem?, Option, ◌≡◌, ℕ, none, [], refl, true, ◌∙◌}
use tools_on_linux.Queue.State.{free, q_ok, q_err_lock, returned, ok, Queue, MutexResults}
use tools_on_linux.Queue.Contract.Locking.{
  sealed, enter-runs, Unlocked, leave_reply-After, leave-After, IsValid-locked,
}

-- A pop of a valid queue takes the first of the contents and wakes one writer, or reports that
-- there is none; nothing else changes, and the element's memory is freed. The lock is taken to
-- succeed; a failing unlock turns the result into an error.
pub pop-After :
    (io : MutexResults) (q : Queue) (cs : Cells) (e : ℕ)
    → IsValid q cs
    → io.lock_result ≡ 0
    → (r : Queue) × (pop io e q
        ≡ ok
            (returned
              (sealed io (lock_failed (pop_result (contents cs))) (pop_result (contents cs))))
            r)
      × After q cs (pop_contents (contents cs)) (pop_events (contents cs)) r
      × Unlocked io r
unfolding pop
pop-After io q cs e v locks =
    let (r, runs, after, same) =
      pop_element-After (record q { locked = true }) cs e (IsValid-locked q cs true v) in
    let (s, left, after', free) =
      leave_reply-After io lock_failed (pop_result (contents cs)) q cs _ _ r after same in
    (s, enter-runs io _ _ q locks ∙ rw runs left, after', free)

-- A peek reads the contents at a position and leaves them; a negative position reads the first.
-- The lock is taken to succeed; a failing unlock turns the result into an error.
pub peek-After :
    (io : MutexResults) (q : Queue) (cs : Cells) (position : ℤ)
    → IsValid q cs
    → io.lock_result ≡ 0
    → let result = peek_result (get_elem? (contents cs) (pos_part position)) in
      (r : Queue) × (peek io position q ≡ ok (sealed io (lock_failed result) result) r)
      × After q cs (contents cs) [] r
      × Unlocked io r
unfolding peek
peek-After io q cs position v locks =
    let (s, left, after, free) =
      leave-After io (lock_failed (peek_result (get_elem? (contents cs) (pos_part position))))
        (peek_result (get_elem? (contents cs) (pos_part position))) q cs _ _
        (record q { locked = true })
        (After-same (record q { locked = true }) cs (IsValid-locked q cs true v)) refl in
    (
      s,
      enter-runs io _ _ q locks
          ∙ rw
              (peek_element-runs (record q { locked = true }) cs position
                (IsValid-locked q cs true v))
              left,
      after,
      free,
    )

-- flushAndCallback hands the contents to the callback in order, frees every element and leaves the
-- queue empty. It wakes nobody. The queue is valid and the lock succeeds.
pub flush_and_callback-After :
    (io : MutexResults) (q : Queue) (cs : Cells) (fcb : Option ℕ)
    → IsValid q cs
    → io.lock_result ≡ 0
    → (r : Queue) × (flush_and_callback io fcb q ≡ ok (sealed io q_err_lock q_ok) r)
      × After q cs [] (flush_events fcb (contents cs)) r
      × Unlocked io r
unfolding flush_and_callback
flush_and_callback-After io q cs fcb v locks =
    let (r, runs, after, same) =
      flush_elements-After fcb (record q { locked = true }) cs (IsValid-locked q cs true v) in
    let (s, left, after', free) = leave-After io q_err_lock q_ok q cs _ _ r after same in
    (s, enter-runs io _ _ q locks ∙ rw runs left, after', free)

-- flush is flushAndCallback with no callback.
pub flush-flush_and_callback : (io : MutexResults) → flush io ≡ flush_and_callback io none
unfolding flush flush_and_callback
flush-flush_and_callback io = refl
