-- ===== src/Queue/Threads/Wakeups/Steps.antt =====
-- Every call and every step of the threads keeps the readers and the writers served.
use tools_on_linux.Queue.Threads.Wakeups.Readers.{empty_goes, pop_done}
use tools_on_linux.Queue.Flushing.{flush_events}
use tools_on_linux.Prelude.Int.{ℤ}
use tools_on_linux.Queue.Pushing.{push_code}
use tools_on_linux.Queue.Threads.Answers.{pop_answer, answer}
use tools_on_linux.Queue.Threads.System.{
  peeks, counts, asks_empty, asks_allowed, running, flushes, Request, settled, pushes, pops, Thread,
}
use tools_on_linux.Queue.Threads.Steps.{contents_of, after_call, History}
use tools_on_linux.Queue.State.{waits, cond_put, Reply, Queue}
use tools_on_linux.Memory.{Ptr}
use tools_on_linux.Queue.Threads.Wakeups.Writers.{writer_sleeps, push_goes, lost_by, Fair-more}
use tools_on_linux.Queue.Threads.Census.{Effect-flush_events, Effect}
use tools_on_linux.Queue.Threads.Wakeups.Fairness.{
  woken_writer, woken_reader, outside, Fair, Caller,
}
use tools_on_linux.Prelude.{
  [], ◌∷◌, true, false, if◌then◌else◌, Option, sym, subst, Bool-cases, ◌∷◌, length, List, ◌≡◌, ℕ,
  Bool, ◌++◌, arith, refl, inl, inr, ◌+◌, ◌&&◌, ◌==◌,
}

-- No chance to push is lost by a reader.
reader_loses_none :
    {w : Bool} {u : Thread} → Caller (pops w) u → (reply : Reply (ℤ × ℕ)) → lost_by u reply ≡ 0
reader_loses_none (outside req) reply = refl
reader_loses_none woken_reader reply = refl

writer_asleep_loses_none :
    {w : Bool} {new : Ptr} {ele : ℕ} {u : Thread}
    → Caller (pushes w new ele) u
    → lost_by u (waits cond_put) ≡ 0
writer_asleep_loses_none (outside req) = refl
writer_asleep_loses_none (woken_writer new ele) = refl

pushes-Fair :
    (q : Queue) (w : Bool) (new : Ptr) (ele lost : ℕ) (xs : List ℕ) (u : Thread)
    (pre post us : List Thread)
    → Caller (pushes w new ele) u
    → length xs ≡ q.used_element_cnts
    → Fair q.used_element_cnts q.capability lost (pre ++ u ∷ post)
    → let a = answer (pushes w new ele) q xs in
      Effect a.events (pre ++ settled (pushes w new ele) a.reply ∷ post) us
      → Fair (length a.contents) q.capability (lost + lost_by u a.reply) us
unfolding answer
pushes-Fair q w new ele lost xs u pre post us caller count fair =
    elim (Bool-cases (w && q.allowed_new_data && q.used_element_cnts == q.capability)) [
      | inl full ↦
          rw (full, writer_asleep_loses_none caller, count)
            (λ same. subst (Fair q.used_element_cnts q.capability (lost + 0)) (sym same) (
              Fair-more q.used_element_cnts q.capability lost 0 _
                (writer_sleeps q w new ele lost u pre post caller (ground (arith, full)) fair)))
      | inr goes ↦
          rw goes (push_goes q w new ele lost xs u pre post us caller count fair (push_code q new))
    ]

empty-Fair :
    (q : Queue) (w allowed : Bool) (lost : ℕ) (u : Thread) (pre post us : List Thread)
    → Caller (pops w) u
    → Fair 0 q.capability lost (pre ++ u ∷ post)
    → let a = pop_answer w allowed [] in
      Effect a.events (pre ++ settled (pops w) a.reply ∷ post) us
      → Fair (length a.contents) q.capability lost us
empty-Fair q true true lost u pre post us caller fair e =
    empty_goes q true true lost u pre post us caller fair e
empty-Fair q true false lost u pre post us caller fair e =
    empty_goes q true false lost u pre post us caller fair e
empty-Fair q false allowed lost u pre post us caller fair e =
    empty_goes q false allowed lost u pre post us caller fair e

pops-Fair :
    (q : Queue) (w : Bool) (lost : ℕ) (xs : List ℕ) (u : Thread) (pre post us : List Thread)
    → Caller (pops w) u
    → length xs ≡ q.used_element_cnts
    → Fair q.used_element_cnts q.capability lost (pre ++ u ∷ post)
    → let a = answer (pops w) q xs in
      Effect a.events (pre ++ settled (pops w) a.reply ∷ post) us
      → Fair (length a.contents) q.capability lost us
unfolding answer
pops-Fair q w lost [] u pre post us caller count fair e =
    let empty = subst (λ n. Fair n q.capability lost (pre ++ u ∷ post)) (sym count) fair in
    empty-Fair q w q.allowed_new_data lost u pre post us caller empty e
pops-Fair q w lost (x ∷ xs) u pre post us caller count fair e =
    pop_done q w (length xs) lost u pre post us caller
      (subst (λ n. Fair n q.capability lost (pre ++ u ∷ post)) (sym count) fair) e

-- A flush leaves no element to read, and loses the places that it frees.
flushes-Fair :
    (q : Queue) (fcb : Option ℕ) (lost : ℕ) (xs : List ℕ) (u : Thread) (pre post us : List Thread)
    → Caller (flushes fcb) u
    → Fair q.used_element_cnts q.capability lost (pre ++ u ∷ post)
    → Effect (flush_events fcb xs) (pre ++ running ∷ post) us
    → Fair 0 q.capability (lost + q.used_element_cnts) us
flushes-Fair q fcb lost xs u pre post us (outside req) fair e =
    subst (Fair 0 q.capability (lost + q.used_element_cnts))
      (sym (Effect-flush_events fcb xs _ us e))
      (record {
        readers = λ some_. omega arith;
        writers = λ some_. ground (arith, fair.writers, some_);
        placed = fair.placed;
      })

call_loses : (b : Bool) (g h : History) → g.lost ≡ h.lost → (if b then g else h).lost ≡ h.lost
call_loses true g h e = e
call_loses false g h e = refl

Fair-lost :
    (n capability lost more waste : ℕ) (us : List Thread)
    → more ≡ lost
    → Fair n capability (lost + waste) us
    → Fair n capability (more + waste) us
Fair-lost n capability lost more waste us e fair =
    subst (λ l. Fair n capability (l + waste) us) (sym e) fair

-- A call that only reads the object.
same-Fair :
    (n capability lost : ℕ) (xs : List ℕ) (ts us : List Thread)
    → length xs ≡ n
    → Fair n capability lost ts
    → us ≡ ts
    → Fair (length xs) capability (lost + 0) us
same-Fair n capability lost xs ts us count fair same =
    subst (Fair (length xs) capability (lost + 0)) (sym same) (
      subst (λ m. Fair m capability (lost + 0) ts) (sym count)
        (Fair-more n capability lost 0 ts fair))

-- What the caller's call comes to.
pub answer-Fair :
    (req : Request) (q : Queue) (xs : List ℕ) (h : History) (u : Thread) (pre post us : List Thread)
    → Caller req u
    → contents_of q ≡ xs
    → length xs ≡ q.used_element_cnts
    → Fair q.used_element_cnts q.capability h.lost (pre ++ u ∷ post)
    → let a = answer req q xs in
      Effect a.events (pre ++ settled req a.reply ∷ post) us
      → Fair
          (length a.contents)
          q.capability
          ((after_call req q a.reply h).lost + lost_by u a.reply)
          us
unfolding answer
answer-Fair (pushes w new ele) q xs h u pre post us caller walked count fair e =
    Fair-lost _ q.capability h.lost _ (lost_by u (answer (pushes w new ele) q xs).reply) us
      (call_loses _ _ h refl) (pushes-Fair q w new ele h.lost xs u pre post us caller count fair e)
answer-Fair (pops w) q xs h u pre post us caller walked count fair e =
    rw (reader_loses_none caller) (
      Fair-lost _ q.capability h.lost _ 0 us (call_loses _ _ h refl) (
        Fair-more _ q.capability h.lost 0 us
          (pops-Fair q w h.lost xs u pre post us caller count fair e)))
answer-Fair (peeks i) q xs h u pre post us (outside req) walked count fair e =
    same-Fair q.used_element_cnts q.capability h.lost xs _ us count fair e
answer-Fair (flushes fcb) q xs h u pre post us (outside req) walked count fair e =
    Fair-more 0 q.capability _ 0 us
      (flushes-Fair q fcb h.lost xs running pre post us (outside (flushes fcb)) fair e)
answer-Fair counts q xs h u pre post us (outside req) walked count fair e =
    same-Fair q.used_element_cnts q.capability h.lost xs _ us count fair e
answer-Fair asks_empty q xs h u pre post us (outside req) walked count fair e =
    same-Fair q.used_element_cnts q.capability h.lost xs _ us count fair e
answer-Fair asks_allowed q xs h u pre post us (outside req) walked count fair e =
    same-Fair q.used_element_cnts q.capability h.lost xs _ us count fair e
