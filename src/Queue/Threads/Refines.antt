-- ===== src/Queue/Threads/Refines.antt =====
-- Every call on a valid queue answers as the abstract queue does.
use tools_on_linux.Queue.Contract.Pops.{peek-After, flush_and_callback-After, pop-After}
use tools_on_linux.Queue.Contract.Waits.{
  push_woken-push_and_wait, pop_woken-pop_and_wait, pop_and_wait-pop, push_and_wait-push,
}
use tools_on_linux.Queue.Contract.Pushes.{push-After}
use tools_on_linux.Prelude.Outcome.{ok}
use tools_on_linux.Queue.Contract.Observes.{get_cnt-runs}
use tools_on_linux.Queue.Calls.{lock_failed, leave_reply, leave, is_allowed_new_data, enter}
use tools_on_linux.Queue.Threads.System.{
  writes, resume, request_of, reads, peeks, flushes, Task, CanAllocate, working, pushes, pops,
  perform, counts, asks_empty, asks_allowed, Request,
}
use tools_on_linux.Queue.State.{
  waits, returned, q_err_nonewdata, cond_get, unlock, lock, free, Queue,
}
use tools_on_linux.Memory.{null, Ptr}
use tools_on_linux.Memory.Chain.{contents, Cells}
use tools_on_linux.Queue.Threads.Answers.{empty_answer, answer, Answer}
use tools_on_linux.Queue.Pushing.{Allocates}
use tools_on_linux.Queue.Represents.{IsValid, After-same, After-locked, After}
use tools_on_linux.Prelude.{
  ℕ, ◌==◌, ◌≡◌, refl, Bool, true, false, ◌&&◌, Option, [], ◌∷◌, if◌then◌else◌, length, Bool-cases,
  inl, inr, arith, suc,
}
use tools_on_linux.Prelude.Int.{ℤ}

left_alone :
    (q : Queue) (cs : Cells) (b : Bool)
    → IsValid q cs
    → After q cs (contents cs) [] (record q { locked = b })
left_alone q cs b v = After-locked q cs (contents cs) [] q q.locked b (After-same q cs v)

-- A call of the concrete queue with that answer.
abbrev pub Answers : Request → Queue → Cells → Answer → Type 0
Answers req q cs a =
    (r : Queue) × (perform req q ≡ ok a.reply r)
    × After q cs a.contents a.events r
    × (r.locked ≡ false)

pushes-Answers :
    (w : Bool) (new : Ptr) (ele : ℕ) (q : Queue) (cs : Cells)
    → IsValid q cs
    → Allocates q new
    → Answers (pushes w new ele) q cs (answer (pushes w new ele) q (contents cs))
unfolding perform answer
pushes-Answers false new ele q cs v fresh =
    let (r, runs, after, free) = push-After working q cs new ele v fresh refl in
    (r, rw runs refl, after, free)
pushes-Answers true new ele q cs v fresh =
    elim (Bool-cases (q.allowed_new_data && q.used_element_cnts == q.capability)) [
      | inl sleeps ↦ (
        record q { locked = false },
        rw (push_and_wait-push working q new ele refl, sleeps) refl,
        rw sleeps (left_alone q cs false v),
        refl,
      )
      | inr goes ↦
          let (r, runs, after, free) = push-After working q cs new ele v fresh refl in
          (r, rw (push_and_wait-push working q new ele refl, goes, runs) refl, rw goes after, free)
    ]

no_element : (q : Queue) → q.used_element_cnts ≡ 0 → (q.used_element_cnts == 0) ≡ true
no_element q e = ground (arith, e)

some_element :
    (q : Queue) (n : ℕ) → q.used_element_cnts ≡ suc n → (q.used_element_cnts == 0) ≡ false
some_element q n e = ground (arith, e)

-- A waiting pop that finds no element, by the flag.
empty_runs :
    (q : Queue) (allowed : Bool)
    → (if allowed
        then ok (waits cond_get) (record q { locked = false })
        else leave_reply working lock_failed
            (returned (q_err_nonewdata, null))
            (record q { locked = true }))
      ≡ ok (empty_answer true allowed).reply (record q { locked = false })
unfolding leave_reply leave unlock
empty_runs q true = refl
empty_runs q false = refl

empty_After :
    (q : Queue) (allowed : Bool)
    → IsValid q []
    → let a = empty_answer true allowed in
      After q [] a.contents a.events (record q { locked = false })
empty_After q true v = left_alone q [] false v
empty_After q false v = left_alone q [] false v

pops-Answers :
    (w : Bool) (q : Queue) (cs : Cells)
    → IsValid q cs
    → Answers (pops w) q cs (answer (pops w) q (contents cs))
unfolding perform answer
pops-Answers false q [] v =
    let (r, runs, after, free) = pop-After working q [] null v refl in (r, runs, after, free)
pops-Answers false q (c ∷ cs) v =
    let (r, runs, after, free) = pop-After working q (c ∷ cs) null v refl in (r, runs, after, free)
pops-Answers true q [] v = (
  record q { locked = false },
  rw (pop_and_wait-pop working q refl, no_element q v.holds.count)
      (empty_runs q q.allowed_new_data),
  empty_After q q.allowed_new_data v,
  refl,
)
pops-Answers true q (c ∷ cs) v =
    let (r, runs, after, free) = pop-After working q (c ∷ cs) null v refl in
    (
      r,
      rw (pop_and_wait-pop working q refl, some_element q (length cs) v.holds.count) runs,
      after,
      free,
    )

peeks-Answers :
    (i : ℤ) (q : Queue) (cs : Cells)
    → IsValid q cs
    → Answers (peeks i) q cs (answer (peeks i) q (contents cs))
unfolding perform answer
peeks-Answers i q cs v =
    let (r, runs, after, free) = peek-After working q cs i v refl in (r, rw runs refl, after, free)

flushes-Answers :
    (fcb : Option ℕ) (q : Queue) (cs : Cells)
    → IsValid q cs
    → Answers (flushes fcb) q cs (answer (flushes fcb) q (contents cs))
unfolding perform answer
flushes-Answers fcb q cs v =
    let (r, runs, after, free) = flush_and_callback-After working q cs fcb v refl in
    (r, rw runs refl, after, free)

-- The calls that cannot sleep and change no element.
reads-Answers :
    (q : Queue) (cs : Cells)
    → IsValid q cs
    → Answers counts q cs (answer counts q (contents cs))
      × Answers asks_empty q cs (answer asks_empty q (contents cs))
      × Answers asks_allowed q cs (answer asks_allowed q (contents cs))
unfolding perform answer is_allowed_new_data enter leave lock unlock
reads-Answers q cs v =
    let (counted, emptied) = get_cnt-runs working q cs v refl refl in
    let same = left_alone q cs false v in
    (
      (record q { locked = false }, rw counted refl, same, refl),
      (record q { locked = false }, rw emptied refl, same, refl),
      (record q { locked = false }, refl, same, refl),
    )

-- Every call on a valid queue refines the abstract queue: it neither faults nor runs out of fuel, it
-- gives the abstract reply, leaves the abstract contents in a valid object, and sends the abstract
-- events; only elements that left the contents are freed, no other memory is touched, and the mutex is
-- free afterwards, also where the call has gone to sleep. The mutex works, and calloc gives NULL or a free address.
pub perform-answer :
    (req : Request) (q : Queue) (cs : Cells)
    → IsValid q cs
    → CanAllocate req q
    → Answers req q cs (answer req q (contents cs))
perform-answer (pushes w new ele) q cs v fresh = pushes-Answers w new ele q cs v fresh
perform-answer (pops w) q cs v fresh = pops-Answers w q cs v
perform-answer (peeks i) q cs v fresh = peeks-Answers i q cs v
perform-answer (flushes fcb) q cs v fresh = flushes-Answers fcb q cs v
perform-answer counts q cs v fresh = (reads-Answers q cs v).0
perform-answer asks_empty q cs v fresh = (reads-Answers q cs v).1
perform-answer asks_allowed q cs v fresh = (reads-Answers q cs v).2

-- A woken thread does what a new call would.
pub resume-perform :
    (t : Task) (new : Ptr) (q : Queue) → resume t new q ≡ perform (request_of t new) q
unfolding resume perform
resume-perform (writes ele) new q = rw (push_woken-push_and_wait working q new ele refl) refl
resume-perform reads new q = pop_woken-pop_and_wait working q refl
