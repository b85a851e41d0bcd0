-- ===== src/Queue/State.antt =====
-- The fields of class Queue (Queue.h), the calls that it makes of pthread, and the monad in which
-- its methods run.
use tools_on_linux.Prelude.{
  ℕ, Bool, true, false, Option, none, some, List, [], ◌∷◌, ◌++◌, ◌==◌, if◌then◌else◌,
}
use tools_on_linux.Prelude.Int.{ℤ, pos, negsuc}
use tools_on_linux.Prelude.Outcome.{Outcome, Program}
pub use tools_on_linux.Prelude.Outcome.{
  ok, fault, out_of_fuel, pure, get, modify, and_then, ◌>>=◌, ◌>>◌,
}
use tools_on_linux.Memory.{Ptr, null, Element, Heap, write}

-- enum QErros
abbrev pub q_ok : ℤ
q_ok = pos 0

abbrev pub q_err_lock : ℤ
q_err_lock = negsuc 1

abbrev pub q_err_mem : ℤ
q_err_mem = negsuc 2

abbrev pub q_err_nonewdata : ℤ
q_err_nonewdata = negsuc 3

abbrev pub q_err_invalid_element : ℤ
q_err_invalid_element = negsuc 4

abbrev pub q_err_num_elements : ℤ
q_err_num_elements = negsuc 6

abbrev pub Compare : Type 0
Compare = ℕ → ℕ → ℤ

-- mCondGet and mCondPut.
pub data Cond : Type 0 where
  cond_get cond_put : Cond

-- What a method does to the world outside the object, in order: it wakes one waiter or all, and
-- calls the flush callback with the user's data and an element's, and destroys a condition.
pub data Event : Type 0 where
  signal : Cond → Event
  broadcast : Cond → Event
  flushed : ℕ → ℕ → Event
  destroyed : Cond → Event

pub record Queue : Type 0 where
  pub used_first_element : Ptr
  pub used_last_element : Ptr
  pub used_element_cnts : ℕ
  pub capability : ℕ
  pub allowed_new_data : Bool
  pub sort : Bool
  pub ascending_order : Bool
  pub cmp_ele_fun : Option Compare
  pub locked : Bool
  pub heap : Heap
  pub events : List Event

abbrev pub Run : Type 0 → Type 0
Run A = Outcome Queue A

abbrev pub M : Type 0 → Type 0
M A = Program Queue A

abbrev pub emit : Event → M (Unit {0})
emit e = modify (λ q. record q { events = q.events ++ e ∷ [] })

-- `*p`, a fault where nothing is allocated.
unfoldable pub load : Ptr → M Element
load p q = if p == null then fault else elim (q.heap p) [ none ↦ fault | some n ↦ ok n q ]

-- The raw write: `some n` fills the address, `none` gives it back.
abbrev pub store : Ptr → Option Element → M (Unit {0})
store p c = modify (λ q. record q { heap = write q.heap p c })

-- `p->next = n`
unfoldable pub set_next : Ptr → Ptr → M (Unit {0})
set_next p n = do e ← load p; store p (some (record e { next = n }))

unfoldable pub free : Ptr → M (Unit {0})
free p = load p >> store p none

-- A call that may sleep: it has returned, or it waits on a condition with the mutex given up.
pub data Reply (A : Type 0) : Type 0 where
  returned : A → Reply A
  waits : Cond → Reply A

-- pthread_cond_wait up to the point where the thread sleeps.
abbrev pub cond_wait : {A : Type 0} → Cond → M (Reply A)
cond_wait c = modify (λ q. record q { locked = false }) >> pure (waits c)

-- The end of pthread_cond_wait: the woken thread holds the mutex again.
abbrev pub reacquire : M (Unit {0})
reacquire = modify (λ q. record q { locked = true })

-- What pthread_mutex_lock and pthread_mutex_unlock return in one method call.
pub record MutexResults : Type 0 where
  pub lock_result : ℕ
  pub unlock_result : ℕ

unfoldable pub lock : MutexResults → M ℤ
lock io =
    if io.lock_result == 0
    then modify (λ q. record q { locked = true }) >> pure q_ok
    else pure q_err_lock

unfoldable pub unlock : MutexResults → M ℤ
unlock io =
    if io.unlock_result == 0
    then modify (λ q. record q { locked = false }) >> pure q_ok
    else pure q_err_lock

abbrev pub is_ok : ℤ → Bool
is_ok (pos n) = n == 0
is_ok (negsuc n) = false
