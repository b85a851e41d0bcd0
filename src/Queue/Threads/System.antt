-- ===== src/Queue/Threads/System.antt =====
-- The threads, what they ask of the queue, and their steps.
use tools_on_linux.Prelude.Outcome.{◌>>=◌, pure}
use tools_on_linux.Queue.Calls.{
  pop, push_woken, push_and_wait, push, pop_woken, pop_and_wait, peek, is_empty,
  is_allowed_new_data, get_cnt, flush_and_callback,
}
use tools_on_linux.Queue.State.{
  M, waits, signal, returned, flushed, destroyed, cond_put, cond_get, broadcast, Reply, Queue,
  MutexResults, Event, Cond,
}
use tools_on_linux.Queue.Pushing.{Allocates}
use tools_on_linux.Prelude.{
  ℕ, ◌+◌, ◌≡◌, Bool, true, false, Option, List, [], ◌∷◌, ◌++◌, map, if◌then◌else◌,
}
use tools_on_linux.Prelude.Int.{ℤ, pos}
use tools_on_linux.Memory.{Ptr, null}

-- A call, with what calloc gives where it comes to that.
pub data Request : Type 0 where
  pushes : Bool → Ptr → ℕ → Request
  pops : Bool → Request
  peeks : ℤ → Request
  flushes : Option ℕ → Request
  counts asks_empty asks_allowed : Request

-- What a thread sleeps for.
pub data Task : Type 0 where
  writes : ℕ → Task
  reads : Task

-- Outside, asleep in pthread_cond_wait on a condition, woken but without the mutex yet, and between the unlock and
-- the broadcasts of setAllowedNewData.
pub data Thread : Type 0 where
  running : Thread
  asleep : Cond → Task → Thread
  woken : Task → Thread
  announcing : Thread

-- The mutex works.
abbrev pub working : MutexResults
working = record { lock_result = 0; unlock_result = 0 }

-- A code, and the value NULL where the call has none.
abbrev pub coded : Reply ℤ → Reply (ℤ × ℕ)
coded (returned c) = returned (c, null)
coded (waits c) = waits c

abbrev pub of_bool : Bool → ℤ
of_bool true = pos 1
of_bool false = pos 0

unfoldable pub perform : Request → M (Reply (ℤ × ℕ))
perform (pushes false new ele) = do r ← push working new ele; pure (coded r)
perform (pushes true new ele) = do r ← push_and_wait working new ele; pure (coded r)
perform (pops false) = pop working null
perform (pops true) = pop_and_wait working
perform (peeks position) = do r ← peek working position; pure (returned r)
perform (flushes fcb) = do c ← flush_and_callback working fcb; pure (returned (c, null))
perform counts = do c ← get_cnt working; pure (returned (c, null))
perform asks_empty = do b ← is_empty working; pure (returned (of_bool b, null))
perform asks_allowed = do b ← is_allowed_new_data working; pure (returned (of_bool b, null))

-- From where a sleeping thread is woken.
unfoldable pub resume : Task → Ptr → M (Reply (ℤ × ℕ))
resume (writes ele) new = do r ← push_woken working new ele; pure (coded r)
resume reads new = pop_woken working

-- What calloc can give: NULL, or an address where nothing is allocated.
abbrev pub CanAllocate : Request → Queue → Type 0
CanAllocate (pushes w new ele) q = Allocates q new
CanAllocate (pops w) q = Unit {0}
CanAllocate (peeks i) q = Unit {0}
CanAllocate (flushes fcb) q = Unit {0}
CanAllocate counts q = Unit {0}
CanAllocate asks_empty q = Unit {0}
CanAllocate asks_allowed q = Unit {0}

-- The call that a sleeping thread is in.
abbrev pub request_of : Task → Ptr → Request
request_of (writes ele) new = pushes true new ele
request_of reads new = pops true

-- The thread after the call; a call that only reads the object never sleeps.
abbrev pub settled : Request → Reply (ℤ × ℕ) → Thread
settled req (returned r) = running
settled (pushes w new ele) (waits c) = asleep c (writes ele)
settled (pops w) (waits c) = asleep c reads
settled (peeks i) (waits c) = running
settled (flushes fcb) (waits c) = running
settled counts (waits c) = running
settled asks_empty (waits c) = running
settled asks_allowed (waits c) = running

-- The condition that is signalled for what the thread sleeps for.
abbrev pub cond_of : Task → Cond
cond_of (writes ele) = cond_put
cond_of reads = cond_get

abbrev pub same_cond : Cond → Cond → Bool
same_cond cond_get cond_get = true
same_cond cond_put cond_put = true
same_cond cond_get cond_put = false
same_cond cond_put cond_get = false

-- A broadcast wakes whoever sleeps on the condition.
abbrev pub wake_up : Cond → Thread → Thread
wake_up c (asleep d t) = if same_cond d c then woken t else asleep d t
wake_up c running = running
wake_up c (woken t) = woken t
wake_up c announcing = announcing

abbrev pub is_asleep : Cond → Thread → ℕ
is_asleep c (asleep d t) = if same_cond d c then 1 else 0
is_asleep c running = 0
is_asleep c (woken t) = 0
is_asleep c announcing = 0

abbrev pub total : (Thread → ℕ) → List Thread → ℕ
total f [] = 0
total f (t ∷ ts) = f t + total f ts

-- What the events of a call do to the threads: a signal wakes one that sleeps on the condition, if
-- there is one, and the system chooses which.
pub data Delivers : List Event → List Thread → List Thread → Type 0 where
  done : (ts : List Thread) → Delivers [] ts ts
  skips :
      (u d : ℕ) (es : List Event) {ts us : List Thread}
      → Delivers es ts us
      → Delivers (flushed u d ∷ es) ts us
  removes :
      (c : Cond) (es : List Event) {ts us : List Thread}
      → Delivers es ts us
      → Delivers (destroyed c ∷ es) ts us
  wakes_one :
      (c : Cond) (es : List Event) (pre post : List Thread) (t : Task) {us : List Thread}
      → Delivers es (pre ++ woken t ∷ post) us
      → Delivers (signal c ∷ es) (pre ++ asleep c t ∷ post) us
  wakes_none :
      (c : Cond) (es : List Event) {ts us : List Thread}
      → total (is_asleep c) ts ≡ 0
      → Delivers es ts us
      → Delivers (signal c ∷ es) ts us
  wakes_all :
      (c : Cond) (es : List Event) {ts us : List Thread}
      → Delivers es (map (wake_up c) ts) us
      → Delivers (broadcast c ∷ es) ts us
