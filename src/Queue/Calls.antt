-- ===== src/Queue/Calls.antt =====
-- The constructors and the public methods of Queue: the mutex around the work.
use tools_on_linux.Prelude.{
  ℕ, ◌-◌, ◌^◌, Bool, true, false, not, Option, none, some, List, [], ◌∷◌, ◌==◌, ◌||◌, ltb,
  if◌then◌else◌,
}
use tools_on_linux.Prelude.Int.{ℤ, signed32}
use tools_on_linux.Memory.{Ptr, null, Heap}
use tools_on_linux.Queue.State.{
  q_ok, q_err_lock, Compare, cond_get, cond_put, broadcast, destroyed, Queue, out_of_fuel, M, pure,
  ◌>>=◌, ◌>>◌, get, modify, emit, reacquire, MutexResults, lock, unlock, is_ok, Reply, returned,
  waits,
}
use tools_on_linux.Queue.Push.{push_wait, push_element}
use tools_on_linux.Queue.Pop.{pop_wait, pop_element, peek_element}
use tools_on_linux.Queue.Flush.{flush_elements}

-- _init, over a heap: INT32_MAX - 1 is the capability without a limit.
unfoldable pub init : Heap → Queue
init h = record {
  used_first_element = null;
  used_last_element = null;
  used_element_cnts = 0;
  capability = 2 ^ 31 - 2;
  allowed_new_data = true;
  sort = false;
  ascending_order = true;
  cmp_ele_fun = none;
  locked = false;
  heap = h;
  events = [];
}

abbrev limit : ℕ → Queue → Queue
limit max_element q = record q {
  capability = if ltb 0 max_element then max_element else q.capability;
}

abbrev pub order : Bool → Option Compare → Queue → Queue
order ascending none q = q
order ascending (some cmp) q = record q {
  sort = true;
  ascending_order = ascending;
  cmp_ele_fun = some cmp;
}

-- The constructor with all three arguments; the other three leave some of its steps out.
unfoldable pub new_queue : Heap → ℕ → Bool → Option Compare → Queue
unfolding init
new_queue h max_element ascending cmp = order ascending cmp (limit max_element (init h))

-- `if (Q_OK != _lock()) return Q_ERR_LOCK;`, with `failed` as what the call then gives.
unfoldable pub enter : {A : Type 0} → MutexResults → A → M A → M A
enter io failed body = do l ← lock io; if is_ok l then body else pure failed

-- `if (Q_OK != _unlock()) return Q_ERR_LOCK; return ret;`, with `failed` as what the call gives
-- where the unlock fails.
unfoldable pub leave : {A : Type 0} → MutexResults → A → A → M A
leave io failed result = do u ← unlock io; pure (if is_ok u then result else failed)

-- The same for a call that may sleep: one that waits has not come to its end.
unfoldable pub leave_reply : {A : Type 0} → MutexResults → (A → A) → Reply A → M (Reply A)
leave_reply io failed (waits c) = pure (waits c)
leave_reply io failed (returned a) = do r ← leave io (failed a) a; pure (returned r)

unfoldable pub push : MutexResults → Ptr → ℕ → M (Reply ℤ)
unfolding enter
push io new ele =
    enter io (returned q_err_lock)
      (do r ← push_element new ele false; leave_reply io (λ _. q_err_lock) r)

unfoldable pub push_and_wait : MutexResults → Ptr → ℕ → M (Reply ℤ)
unfolding enter
push_and_wait io new ele =
    enter io (returned q_err_lock)
      (do r ← push_element new ele true; leave_reply io (λ _. q_err_lock) r)

-- pushAndWait from where its thread is woken.
unfoldable pub push_woken : MutexResults → Ptr → ℕ → M (Reply ℤ)
push_woken io new ele = do reacquire; r ← push_wait new ele; leave_reply io (λ _. q_err_lock) r

abbrev pub lock_failed : ℤ × ℕ → ℤ × ℕ
lock_failed r = (q_err_lock, r.1)

unfoldable pub pop : MutexResults → ℕ → M (Reply (ℤ × ℕ))
unfolding enter
pop io e =
    enter io (returned (q_err_lock, e))
      (do r ← pop_element e false none null; leave_reply io lock_failed r)

unfoldable pub pop_and_wait : MutexResults → M (Reply (ℤ × ℕ))
unfolding enter
pop_and_wait io =
    enter io (returned (q_err_lock, null))
      (do r ← pop_element null true none null; leave_reply io lock_failed r)

-- popAndWait from where its thread is woken.
unfoldable pub pop_woken : MutexResults → M (Reply (ℤ × ℕ))
pop_woken io = do reacquire; r ← pop_wait null none null; leave_reply io lock_failed r

unfoldable pub peek : MutexResults → ℤ → M (ℤ × ℕ)
unfolding enter
peek io position =
    enter io (q_err_lock, null) (do r ← peek_element null position; leave io (lock_failed r) r)

unfoldable pub flush : MutexResults → M ℤ
unfolding enter
flush io = enter io q_err_lock (do r ← flush_elements none; leave io q_err_lock r)

unfoldable pub flush_and_callback : MutexResults → Option ℕ → M ℤ
unfolding enter
flush_and_callback io fcb = enter io q_err_lock (do r ← flush_elements fcb; leave io q_err_lock r)

-- `cnt` is an int32_t that is given a uint32_t.
unfoldable pub get_cnt : MutexResults → M ℤ
unfolding enter
get_cnt io = enter io q_err_lock (do q ← get; leave io q_err_lock (signed32 q.used_element_cnts))

-- The results of the lock and the unlock are not looked at.
unfoldable pub is_empty : MutexResults → M Bool
is_empty io = do
  lock io
  q ← get
  unlock io
  pure (q.used_first_element == null || q.used_last_element == null)

-- setAllowedNewData up to the unlock: whether both calls of the mutex worked.
unfoldable pub set_flag : MutexResults → Bool → M Bool
set_flag io allowed = do
  l ← lock io
  if not (is_ok l)
      then pure false
      else do modify (λ q. record q { allowed_new_data = allowed }); u ← unlock io; pure (is_ok u)

-- From there on: the flag is read again, without the mutex.
unfoldable pub announce : M ℤ
announce = do
  q ← get
  if q.allowed_new_data
      then pure q_ok
      else (do emit (broadcast cond_get); emit (broadcast cond_put); pure q_ok)

unfoldable pub set_allowed_new_data : MutexResults → Bool → M ℤ
set_allowed_new_data io allowed = do
  done ← set_flag io allowed
  if done then announce else pure q_err_lock

-- The error code, as a bool, is true.
unfoldable pub is_allowed_new_data : MutexResults → M Bool
unfolding enter
is_allowed_new_data io = enter io true (do q ← get; leave io true q.allowed_new_data)

abbrev pub ebusy : ℕ
ebusy = 16

-- `while (EBUSY == (error = pthread_mutex_destroy(&mMutex)))`, over what the calls return.
unfoldable pub destroy_mutex : List ℕ → M ℕ
destroy_mutex [] = λ _. out_of_fuel
destroy_mutex (r ∷ rs) = if r == ebusy then destroy_mutex rs else pure r

-- _release: `closing` and `io` are the results of the mutex for setAllowedNewData and for the rest.
unfoldable pub release : MutexResults → MutexResults → List ℕ → M ℕ
unfolding destroy_mutex
release closing io destroys = do
  set_allowed_new_data closing false
  lock io
  flush_elements none
  modify (λ q. record q { used_first_element = null; used_last_element = null })
  emit (destroyed cond_get)
  emit (destroyed cond_put)
  unlock io
  destroy_mutex destroys
