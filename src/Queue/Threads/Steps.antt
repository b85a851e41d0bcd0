-- ===== src/Queue/Threads/Steps.antt =====
-- What the threads have done so far, and what one of them can do next.
use tools_on_linux.Queue.Threads.System.{
  writes, working, woken, settled, running, resume, request_of, reads, pushes, pops, perform, peeks,
  flushes, counts, asleep, asks_empty, asks_allowed, announcing, Thread, Task, Request, CanAllocate,
  Delivers,
}
use tools_on_linux.Prelude.Outcome.{ok}
use tools_on_linux.Queue.Calls.{set_flag, announce}
use tools_on_linux.Queue.State.{waits, returned, is_ok, Reply, Queue, Event, Cond}
use tools_on_linux.Queue.Pushing.{Allocates}
use tools_on_linux.Prelude.{
  ℕ, zero, suc, ◌+◌, ◌≡◌, Bool, true, false, none, some, List, [], ◌∷◌, ◌++◌, if◌then◌else◌,
}
use tools_on_linux.Prelude.Int.{ℤ}
use tools_on_linux.Memory.{Ptr, null, Heap}

-- The contents, read off the links.
unfoldable pub walk : Heap → ℕ → Ptr → List ℕ
walk h zero p = []
walk h (suc n) p = elim (h p) [ none ↦ [] | some e ↦ e.content ∷ walk h n e.next ]

abbrev pub contents_of : Queue → List ℕ
contents_of q = walk q.heap q.used_element_cnts q.used_first_element

-- What happened so far: the elements pushed, those popped or flushed, each in order; and how many
-- chances to push were lost to sleeping writers, by a flush, which wakes none, or by a woken writer
-- that did not push.
pub record History : Type 0 where
  pub pushed : List ℕ
  pub removed : List ℕ
  pub lost : ℕ

abbrev pub is_success : Reply (ℤ × ℕ) → Bool
is_success (returned r) = is_ok r.0
is_success (waits c) = false

abbrev pub value_of : Reply (ℤ × ℕ) → ℕ
value_of (returned r) = r.1
value_of (waits c) = null

abbrev pub after_call : Request → Queue → Reply (ℤ × ℕ) → History → History
after_call (pushes w new ele) q reply h =
    if is_success reply then record h { pushed = h.pushed ++ ele ∷ [] } else h
after_call (pops w) q reply h =
    if is_success reply then record h { removed = h.removed ++ value_of reply ∷ [] } else h
after_call (flushes fcb) q reply h = record h {
  removed = h.removed ++ contents_of q;
  lost = h.lost + q.used_element_cnts;
}
after_call (peeks i) q reply h = h
after_call counts q reply h = h
after_call asks_empty q reply h = h
after_call asks_allowed q reply h = h

abbrev pub wasted : Task → Reply (ℤ × ℕ) → ℕ
wasted (writes ele) (returned r) = if is_ok r.0 then 0 else 1
wasted (writes ele) (waits c) = 0
wasted reads reply = 0

abbrev pub after_resume : Task → Ptr → Queue → Reply (ℤ × ℕ) → History → History
after_resume t new q reply h =
    let g = after_call (request_of t new) q reply h in record g { lost = g.lost + wasted t reply }

pub record System : Type 0 where
  pub queue : Queue
  pub threads : List Thread
  pub history : History

abbrev pub system : Queue → List Thread → History → System
system q ts h = record { queue = q; threads = ts; history = h }

-- A thread that finds the mutex free calls or resumes, or sets the flag; one wakes up by itself, or goes through the two parts of setAllowedNewData.
pub data Step : System → System → Type 0 where
  call :
      (pre post us : List Thread) (req : Request) (q r : Queue) (reply : Reply (ℤ × ℕ))
      (es : List Event) (h : History)
      → q.locked ≡ false
      → CanAllocate req q
      → perform req q ≡ ok reply r
      → r.events ≡ q.events ++ es
      → Delivers es (pre ++ settled req reply ∷ post) us
      → Step (system q (pre ++ running ∷ post) h) (system r us (after_call req q reply h))
  go_on :
      (pre post us : List Thread) (t : Task) (new : Ptr) (q r : Queue) (reply : Reply (ℤ × ℕ))
      (es : List Event) (h : History)
      → q.locked ≡ false
      → Allocates q new
      → resume t new q ≡ ok reply r
      → r.events ≡ q.events ++ es
      → Delivers es (pre ++ settled (request_of t new) reply ∷ post) us
      → Step (system q (pre ++ woken t ∷ post) h) (system r us (after_resume t new q reply h))
  wake_by_itself :
      (pre post : List Thread) (c : Cond) (t : Task) (q : Queue) (h : History)
      → Step (system q (pre ++ asleep c t ∷ post) h) (system q (pre ++ woken t ∷ post) h)
  sets_flag :
      (pre post : List Thread) (allowed : Bool) (q r : Queue) (h : History)
      → q.locked ≡ false
      → set_flag working allowed q ≡ ok true r
      → Step (system q (pre ++ running ∷ post) h) (system r (pre ++ announcing ∷ post) h)
  announces :
      (pre post us : List Thread) (c : ℤ) (q r : Queue) (es : List Event) (h : History)
      → announce q ≡ ok c r
      → r.events ≡ q.events ++ es
      → Delivers es (pre ++ running ∷ post) us
      → Step (system q (pre ++ announcing ∷ post) h) (system r us h)

pub data Reach (start : System) : System → Type 0 where
  here : Reach start start
  later : {s t : System} → Reach start s → Step s t → Reach start t
