-- ===== src/Queue/Contract/Waits.antt =====
-- pushAndWait and popAndWait against push and pop.
use tools_on_linux.Queue.Pop.{pop_wait, pop_take, pop_element}
use tools_on_linux.Memory.{null, Ptr}
use tools_on_linux.Queue.Push.{push_insert, push_wait, push_element}
use tools_on_linux.Queue.Calls.{
  pop_woken, pop, push_woken, pop_and_wait, lock_failed, leave_reply, push, push_and_wait,
}
use tools_on_linux.Prelude.{
  sym, Bool, ap, not, ◌==◌, ◌&&◌, if◌then◌else◌, ◌≡◌, ℕ, none, refl, true, false, ◌∙◌,
}
use tools_on_linux.Queue.State.{
  returned, q_err_num_elements, q_err_nonewdata, q_err_lock, pure, cond_wait, cond_put, waits, ok,
  Queue, MutexResults, ◌>>=◌, Run, M, and_then, cond_get,
}
use tools_on_linux.Queue.Contract.Locking.{enter-runs}

and_then-if :
    {A B : Type 0} (b : Bool) (x y : Run A) (k : A → M B)
    → and_then (if b then x else y) k ≡ (if b then and_then x k else and_then y k)
and_then-if true x y k = refl
and_then-if false x y k = refl

-- The tests of _pushElement with `isWait`, by what they choose between; `again` is the head of the
-- waiting loop.
module _ {A : Type 0} (closed refuse insert wait again : M A) (q : Queue) where
  abbrev loop_head : Bool → Bool → M A
  loop_head allowed full = if full && allowed then wait else if not allowed then closed else insert

  push_tests :
      (allowed full : Bool)
      → again q ≡ loop_head allowed full q
      → (if not allowed then closed else if full then again else insert) q ≡ (
          if allowed && full
          then wait q
          else (if not allowed then closed else if full then refuse else insert) q)
  push_tests true true e = e
  push_tests true false e = refl
  push_tests false full e = refl

  woken_tests :
      (allowed full : Bool)
      → again q ≡ loop_head allowed full q
      → loop_head allowed full q
        ≡ (if not allowed then closed else if full then again else insert) q
  woken_tests true true e = sym e
  woken_tests true false e = refl
  woken_tests false true e = refl
  woken_tests false false e = refl

  -- The same for _popElement.
  pop_tests :
      (allowed empty : Bool)
      → again q
        ≡ (if empty && allowed then wait else if empty && not allowed then closed else insert) q
      → (if empty then again else insert) q ≡ (
          if empty
          then (if allowed then wait q else closed q)
          else (if empty then refuse else insert) q)
  pop_tests true true e = e
  pop_tests false true e = e
  pop_tests allowed false e = refl

  woken_pops :
      (allowed empty : Bool)
      → again q
        ≡ (if empty && allowed then wait else if empty && not allowed then closed else insert) q
      → again q ≡ (if empty then again else insert) q
  woken_pops allowed true e = refl
  woken_pops allowed false e = e

push_element-waits :
    (new : Ptr) (ele : ℕ) (q : Queue)
    → push_element new ele true q ≡ (
        if q.allowed_new_data && q.used_element_cnts == q.capability
        then ok (waits cond_put) (record q { locked = false })
        else push_element new ele false q)
unfolding push_element push_wait
push_element-waits new ele q =
    push_tests (pure (returned q_err_nonewdata)) (pure (returned q_err_num_elements))
      (push_insert new ele) (cond_wait cond_put) (push_wait new ele) q q.allowed_new_data
      (q.used_element_cnts == q.capability) refl

push_wait-push_element :
    (new : Ptr) (ele : ℕ) (q : Queue) → push_wait new ele q ≡ push_element new ele true q
unfolding push_element push_wait
push_wait-push_element new ele q =
    woken_tests (pure (returned q_err_nonewdata)) (pure (returned q_err_num_elements))
      (push_insert new ele) (cond_wait cond_put) (push_wait new ele) q q.allowed_new_data
      (q.used_element_cnts == q.capability) refl

pop_element-waits :
    (q : Queue)
    → pop_element null true none null q ≡ (
        if q.used_element_cnts == 0
        then (if q.allowed_new_data
            then ok (waits cond_get) (record q { locked = false })
            else ok (returned (q_err_nonewdata, null)) q)
        else pop_element null false none null q)
unfolding pop_element pop_wait
pop_element-waits q =
    pop_tests (pure (returned (q_err_nonewdata, null))) (pure (returned (q_err_num_elements, null)))
      (pop_take none null) (cond_wait cond_get) (pop_wait null none null) q q.allowed_new_data
      (q.used_element_cnts == 0) refl

-- pushAndWait is push, but where push finds the queue full it waits on mCondPut with the mutex
-- given up. The lock succeeds.
pub push_and_wait-push :
    (io : MutexResults) (q : Queue) (new : Ptr) (ele : ℕ)
    → io.lock_result ≡ 0
    → push_and_wait io new ele q ≡ (
        if q.allowed_new_data && q.used_element_cnts == q.capability
        then ok (waits cond_put) (record q { locked = false })
        else push io new ele q)
unfolding push_and_wait push leave_reply
push_and_wait-push io q new ele locks =
    enter-runs io _ _ q locks
    ∙ ap (λ run. and_then run (leave_reply io (λ _. q_err_lock)))
        (push_element-waits new ele (record q { locked = true }))
    ∙ and_then-if (q.allowed_new_data && q.used_element_cnts == q.capability) _ _ _
    ∙ ap
        (λ run.
          if q.allowed_new_data && q.used_element_cnts == q.capability
          then ok (waits cond_put) (record q { locked = false })
          else run)
        (sym (enter-runs io _ _ q locks))

-- A woken pushAndWait goes on as a new call would, whose lock succeeds.
pub push_woken-push_and_wait :
    (io : MutexResults) (q : Queue) (new : Ptr) (ele : ℕ)
    → io.lock_result ≡ 0
    → push_woken io new ele q ≡ push_and_wait io new ele q
unfolding push_woken push_and_wait
push_woken-push_and_wait io q new ele locks =
    ap (λ run. and_then run (leave_reply io (λ _. q_err_lock)))
      (push_wait-push_element new ele (record q { locked = true }))
    ∙ sym (enter-runs io _ _ q locks)

-- popAndWait is pop, but where pop finds the queue empty it waits on mCondGet with the mutex given
-- up, or, if new data is no longer allowed, returns Q_ERR_NONEWDATA. The lock succeeds.
pub pop_and_wait-pop :
    (io : MutexResults) (q : Queue)
    → io.lock_result ≡ 0
    → pop_and_wait io q ≡ (
        if q.used_element_cnts == 0
        then (if q.allowed_new_data
            then ok (waits cond_get) (record q { locked = false })
            else leave_reply io lock_failed
                (returned (q_err_nonewdata, null))
                (record q { locked = true }))
        else pop io null q)
unfolding pop_and_wait pop leave_reply
pop_and_wait-pop io q locks =
    enter-runs io _ _ q locks
    ∙ ap (λ run. and_then run (leave_reply io lock_failed))
        (pop_element-waits (record q { locked = true }))
    ∙ and_then-if (q.used_element_cnts == 0) _ _ _
    ∙ (λ i.
        if q.used_element_cnts == 0
        then and_then-if q.allowed_new_data (ok (waits cond_get) (record q { locked = false }))
            (ok (returned (q_err_nonewdata, null)) (record q { locked = true }))
            (leave_reply io lock_failed) i
        else sym
            (enter-runs io (returned (q_err_lock, null))
              (do r ← pop_element null false none null; leave_reply io lock_failed r) q locks)
            i)

pop_wait-pop_element : (q : Queue) → pop_wait null none null q ≡ pop_element null true none null q
unfolding pop_element pop_wait
pop_wait-pop_element q =
    woken_pops (pure (returned (q_err_nonewdata, null)))
      (pure (returned (q_err_num_elements, null))) (pop_take none null) (cond_wait cond_get)
      (pop_wait null none null) q q.allowed_new_data (q.used_element_cnts == 0) refl

-- A woken popAndWait goes on as a new call would, whose lock succeeds.
pub pop_woken-pop_and_wait :
    (io : MutexResults) (q : Queue) → io.lock_result ≡ 0 → pop_woken io q ≡ pop_and_wait io q
unfolding pop_woken pop_and_wait
pop_woken-pop_and_wait io q locks =
    ap (λ run. and_then run (leave_reply io lock_failed))
      (pop_wait-pop_element (record q { locked = true }))
    ∙ sym (enter-runs io _ _ q locks)
