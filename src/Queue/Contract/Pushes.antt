-- ===== src/Queue/Contract/Pushes.antt =====
-- Queue::push.
use tools_on_linux.Queue.Represents.{After, IsValid}
use tools_on_linux.Memory.{Ptr}
use tools_on_linux.Memory.Chain.{contents, Cells}
use tools_on_linux.Queue.Pushing.{
  push_events, push_element-After, push_contents, Allocates, push_code,
}
use tools_on_linux.Queue.Calls.{push}
use tools_on_linux.Prelude.{◌≡◌, ℕ, true, ◌∙◌}
use tools_on_linux.Queue.State.{q_err_lock, free, returned, ok, Queue, MutexResults}
use tools_on_linux.Queue.Contract.Locking.{
  sealed, enter-runs, Unlocked, leave_reply-After, IsValid-locked,
}

-- A push of a valid queue returns its code, and refines the insertion into the list of contents:
-- the element is stored, in the place that the mode of the queue gives it, exactly where the code
-- is Q_OK, and then one reader is woken; nothing else changes. The lock is taken to succeed, calloc
-- to give NULL or a free address; a failing unlock turns the result, and only that, into an error.
pub push-After :
    (io : MutexResults) (q : Queue) (cs : Cells) (new : Ptr) (ele : ℕ)
    → IsValid q cs
    → Allocates q new
    → io.lock_result ≡ 0
    → (r : Queue) × (push io new ele q ≡ ok (returned (sealed io q_err_lock (push_code q new))) r)
      × After q cs
          (push_contents (push_code q new) q ele (contents cs))
          (push_events (push_code q new))
          r
      × Unlocked io r
unfolding push push_code
push-After io q cs new ele v fresh e =
    let (r, runs, after, same) =
      push_element-After (record q { locked = true }) cs new ele (IsValid-locked q cs true v)
        fresh in
    let (s, left, after', free) =
      leave_reply-After io (λ _. q_err_lock) (push_code q new) q cs _ _ r after same in
    (s, enter-runs io _ _ q e ∙ rw runs left, after', free)
