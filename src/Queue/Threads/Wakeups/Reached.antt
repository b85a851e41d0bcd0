-- ===== src/Queue/Threads/Wakeups/Reached.antt =====
-- The readers and the writers are served in every state that the threads reach.
use tools_on_linux.Prelude.Int.{ℤ}
use tools_on_linux.Queue.Threads.Wakeups.Writers.{lost_by}
use tools_on_linux.Queue.Contract.Observes.{length-contents}
use tools_on_linux.Queue.Threads.Conserved.{contents_of-contents}
use tools_on_linux.Queue.Sorting.{before}
use tools_on_linux.Queue.Threads.Wakeups.Steps.{answer-Fair}
use tools_on_linux.Queue.Threads.Answers.{answer}
use tools_on_linux.Memory.{Ptr}
use tools_on_linux.Queue.Represents.{IsValid}
use tools_on_linux.Queue.Threads.Held.{nothing_yet, no_history, run-resumed, Reach-Held, Held}
use tools_on_linux.Queue.Threads.Census.{
  total-split, sleepers, is_awake, is_misplaced, misplaced_bound, broadcasts-Effect, awakened,
  Effect, Delivers-Effect,
}
use tools_on_linux.Queue.Threads.System.{
  writes, woken, settled, running, request_of, reads, is_asleep, asleep, announcing, Thread, Task,
  Request, Delivers,
}
use tools_on_linux.Queue.Threads.Steps.{
  wake_by_itself, system, sets_flag, later, here, go_on, call, announces, after_call, System, Step,
  Reach, History,
}
use tools_on_linux.Queue.State.{cond_put, cond_get, Reply, Queue, Event, Cond}
use tools_on_linux.Memory.Chain.{contents, Cells}
use tools_on_linux.Queue.Threads.Wakeups.Fairness.{
  woken_writer, woken_reader, outside, Fair, Caller,
}
use tools_on_linux.Queue.Threads.Called.{
  run-set_flag, run-Called, run-Announced, announced, allowed_again, Called, Announced,
}
use tools_on_linux.Prelude.{
  ◌⊎◌, inl, inr, zero, suc, ◌<◌, length, ◌≡◌, List, ℕ, ◌∷◌, true, ◌++◌, arith, ◌≤◌, refl, ◌+◌, ◌∙◌,
  sym, subst, ap,
}

abbrev pub Served : System → Type 0
Served s = Fair s.queue.used_element_cnts s.queue.capability s.history.lost s.threads

Called-Served :
    (req : Request) (q r : Queue) (cs : Cells) (reply : Reply (ℤ × ℕ)) (es : List Event)
    (u : Thread) (pre post us : List Thread) (h : History)
    → Caller req u
    → IsValid q cs
    → Called req q cs reply r es
    → Served (system q (pre ++ u ∷ post) h)
    → Delivers es (pre ++ settled req reply ∷ post) us
    → Fair r.used_element_cnts r.capability ((after_call req q reply h).lost + lost_by u reply) us
Called-Served req q r cs reply es u pre post us h caller v c fair del =
    let xs = contents cs in
    let a = answer req q xs in
    let effect : Effect a.events (pre ++ settled req a.reply ∷ post) us =
      subst (λ rep. Effect a.events (pre ++ settled req rep ∷ post) us) c.reply_is
        (subst (λ evs. Effect evs (pre ++ settled req reply ∷ post) us) c.events_are
          (Delivers-Effect del)) in
    let result =
      answer-Fair req q xs h u pre post us caller (contents_of-contents q cs v)
        (length-contents cs ∙ sym v.holds.count) fair effect in
    let left : length a.contents ≡ r.used_element_cnts =
      ap length (sym c.after.is_spec)
      ∙ length-contents c.after.cells
      ∙ sym c.after.valid.holds.count in
    subst
      (λ rep.
        Fair r.used_element_cnts r.capability ((after_call req q rep h).lost + lost_by u rep) us)
      (sym c.reply_is)
      (subst (λ n. Fair n r.capability ((after_call req q a.reply h).lost + lost_by u a.reply) us)
        left
        (subst
          (λ n.
            Fair (length a.contents) n ((after_call req q a.reply h).lost + lost_by u a.reply) us)
          (sym c.after.capability) result))

Fair-outside :
    (n capability lost : ℕ) (ts : List Thread)
    → Fair n capability (lost + 0) ts
    → Fair n capability lost ts
Fair-outside n capability lost ts fair = subst (λ l. Fair n capability l ts) (omega arith) fair

resumed_caller : (t : Task) (new : Ptr) → Caller (request_of t new) (woken t)
resumed_caller (writes ele) new = woken_writer new ele
resumed_caller reads new = woken_reader

-- Between threads that neither sleep nor are woken nothing changes.
exchanged-Fair :
    (n capability lost : ℕ) (pre post : List Thread) (u t : Thread)
    → ((c : Cond) → (is_asleep c u ≡ is_asleep c t) × (is_awake c u ≡ is_awake c t))
    → is_misplaced u ≡ is_misplaced t
    → Fair n capability lost (pre ++ u ∷ post)
    → Fair n capability lost (pre ++ t ∷ post)
exchanged-Fair n capability lost pre post u t same also fair =
    let counts : (c : Cond)
        → (sleepers c (pre ++ u ∷ post) ≡ sleepers c (pre ++ t ∷ post))
          × (awakened c (pre ++ u ∷ post) ≡ awakened c (pre ++ t ∷ post)) =
      λ c. (
        omega (
          arith,
          total-split (is_asleep c) pre post u,
          total-split (is_asleep c) pre post t,
          same c,
        ),
        omega (
          arith,
          total-split (is_awake c) pre post u,
          total-split (is_awake c) pre post t,
          same c,
        ),
      ) in
    record {
      readers = λ some_. ground (arith, counts cond_get, fair.readers, some_);
      writers = λ some_. ground (arith, counts cond_put, fair.writers, some_);
      placed = omega (
        arith,
        total-split is_misplaced pre post u,
        total-split is_misplaced pre post t,
        also,
        fair.placed,
      );
    }

-- A thread that wakes up by itself only adds to those awake.
woken-Fair :
    (n capability lost : ℕ) (pre post : List Thread) (d : Cond) (t : Task)
    → Fair n capability lost (pre ++ asleep d t ∷ post)
    → Fair n capability lost (pre ++ woken t ∷ post)
woken-Fair n capability lost pre post d t fair =
    let one = λ (f : Thread → ℕ). total-split f pre post (asleep d t) in
    let two = λ (f : Thread → ℕ). total-split f pre post (woken t) in
    let less : (c : Cond)
        → (sleepers c (pre ++ woken t ∷ post) ≤ sleepers c (pre ++ asleep d t ∷ post))
          × (awakened c (pre ++ asleep d t ∷ post) ≤ awakened c (pre ++ woken t ∷ post)) =
      λ c. (
        omega (arith, one (is_asleep c), two (is_asleep c)),
        omega (arith, one (is_awake c), two (is_awake c)),
      ) in
    record {
      readers = λ some_. ground (arith, less cond_get, fair.readers, some_);
      writers = λ some_. ground (arith, less cond_put, fair.writers, some_);
      placed = omega (arith, one is_misplaced, two is_misplaced, fair.placed);
    }

Announced-Fair :
    (q r : Queue) (es : List Event) (pre post us : List Thread) (lost : ℕ)
    → Announced q r es
    → Fair q.used_element_cnts q.capability lost (pre ++ running ∷ post)
    → Effect es (pre ++ running ∷ post) us
    → Fair r.used_element_cnts r.capability lost us
Announced-Fair q r es pre post us lost (allowed_again on) fair same =
    subst (Fair q.used_element_cnts q.capability lost) (sym same) fair
Announced-Fair q r es pre post us lost (announced off) fair e =
    let none_ = broadcasts-Effect (pre ++ running ∷ post) us e in
    record {
      readers = λ some_. omega (arith, none_);
      writers = λ some_. omega (arith, none_);
      placed = omega (arith, misplaced_bound us, none_);
    }

Step-Served : (old : List ℕ) {s t : System} → Step s t → Held old s → Served s → Served t
Step-Served old (call pre post us req q r reply es h unlocked fresh runs sends del) held fair =
    Fair-outside r.used_element_cnts r.capability _ us (
      Called-Served req q r held.cells reply es running pre post us h (outside req) held.valid
        (run-Called req q held.cells reply r es held.valid fresh runs sends) fair del)
Step-Served old (go_on pre post us t new q r reply es h unlocked fresh runs sends del) held fair =
    Called-Served (request_of t new) q r held.cells reply es (woken t) pre post us h
      (resumed_caller t new) held.valid
      (run-resumed t new q held.cells reply r es held.valid fresh runs sends) fair del
Step-Served old (wake_by_itself pre post c t q h) held fair = woken-Fair _ _ _ pre post c t fair
Step-Served old (sets_flag pre post allowed q r h unlocked runs) held fair =
    subst (λ s. Served (system s (pre ++ announcing ∷ post) h)) (run-set_flag allowed true q r runs)
      (exchanged-Fair q.used_element_cnts q.capability h.lost pre post running announcing
        (λ c. (refl, refl)) refl fair)
Step-Served old (announces pre post us c q r es h runs sends del) held fair =
    Announced-Fair q r es pre post us h.lost (run-Announced c q r es runs sends)
      (exchanged-Fair q.used_element_cnts q.capability h.lost pre post announcing running
        (λ c. (refl, refl)) refl fair)
      (Delivers-Effect del)

Reach-Served : (old : List ℕ) {s t : System} → Reach s t → Held old s → Served s → Served t
Reach-Served old here held fair = fair
Reach-Served old (later before step) held fair =
    Step-Served old step (Reach-Held old before held) (Reach-Served old before held fair)

while_asleep : {A : Type 0} (n : ℕ) → (0 < n → A) → (n ≡ 0) ⊎ A
while_asleep zero holds = inl refl
while_asleep (suc n) holds = inr (holds (omega arith))

-- No wakeup is lost, whatever any number of threads do with a valid queue when none of them sleeps at
-- first: in every state reached, no reader sleeps or there is a woken reader for every element of the
-- queue; and no writer sleeps or there is a woken writer for every free place, but for the places that
-- a flush freed and the wakeups of writers that did not push, which the history counts.
-- The mutex works, and calloc gives NULL or a free address.
pub Reach-no_lost_wakeup :
    (q : Queue) (cs : Cells) (ts : List Thread) (s : System)
    → IsValid q cs
    → sleepers cond_get ts ≡ 0
    → sleepers cond_put ts ≡ 0
    → Reach (system q ts no_history) s
    → ((sleepers cond_get s.threads ≡ 0)
        ⊎ (s.queue.used_element_cnts ≤ awakened cond_get s.threads))
      × ((sleepers cond_put s.threads ≡ 0)
          ⊎ (s.queue.capability
              ≤ s.queue.used_element_cnts + awakened cond_put s.threads + s.history.lost))
Reach-no_lost_wakeup q cs ts s v no_reader no_writer reach =
    let fair = Reach-Served (contents cs) reach (nothing_yet q cs ts v) (record {
      readers = λ some_. omega (arith, no_reader);
      writers = λ some_. omega (arith, no_writer);
      placed = omega (arith, misplaced_bound ts, no_reader, no_writer);
    }) in
    (
      while_asleep (sleepers cond_get s.threads) fair.readers,
      while_asleep (sleepers cond_put s.threads) fair.writers,
    )

-- So the threads do not block each other: where a reader and a writer of a queue that has room for an
-- element both sleep, and no wakeup was lost, a woken thread is on its way.
-- The mutex works, and calloc gives NULL or a free address.
pub Reach-no_deadlock :
    (q : Queue) (cs : Cells) (ts : List Thread) (s : System)
    → IsValid q cs
    → sleepers cond_get ts ≡ 0
    → sleepers cond_put ts ≡ 0
    → Reach (system q ts no_history) s
    → 0 < s.queue.capability
    → s.history.lost ≡ 0
    → 0 < sleepers cond_get s.threads
    → 0 < sleepers cond_put s.threads
    → 0 < awakened cond_get s.threads + awakened cond_put s.threads
Reach-no_deadlock q cs ts s v no_reader no_writer reach room kept reader writer =
    let (readers, writers) = Reach-no_lost_wakeup q cs ts s v no_reader no_writer reach in
    ground (arith, readers, writers, reader, writer)
