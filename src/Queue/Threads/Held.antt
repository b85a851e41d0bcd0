-- ===== src/Queue/Threads/Held.antt =====
-- The object and the elements through every interleaving of the threads.
use mathlib.Core.List.Perm
use mathlib.Core.List.{Perm}
use tools_on_linux.Prelude.Int.{ℤ}
use tools_on_linux.Queue.Sorting.{before}
use tools_on_linux.Queue.Threads.Refines.{perform-answer, Answers, resume-perform}
use tools_on_linux.Prelude.Outcome.{ok}
use tools_on_linux.Queue.Threads.Answers.{answer}
use tools_on_linux.Memory.{Ptr}
use tools_on_linux.Queue.Threads.Conserved.{contents_of-contents, answer-Kept, Kept}
use tools_on_linux.Queue.Represents.{IsValid}
use tools_on_linux.Queue.State.{Reply, Queue, Event}
use tools_on_linux.Memory.Chain.{contents, Cells}
use tools_on_linux.Queue.Threads.System.{
  writes, resume, request_of, reads, announcing, Thread, Task, Request, CanAllocate,
}
use tools_on_linux.Queue.Threads.Steps.{
  later, here, Reach, wake_by_itself, system, sets_flag, go_on, call, announces, after_call, System,
  Step, History,
}
use tools_on_linux.Queue.Threads.Called.{
  Announced, run-set_flag, run-Called, run-Announced, announced, allowed_again, Called,
}
use tools_on_linux.Queue.Pushing.{Allocates}
use tools_on_linux.Prelude.{
  ◌⊎◌, inl, inr, Bool-cases, true, refl, append-nil, ◌∙◌, true, ◌∷◌, sym, ◌≡◌, subst, ℕ, false,
  Bool, List, [], ◌++◌,
}

-- The invariant: the object is valid, and the elements are kept.
pub record Held (old : List ℕ) (s : System) : Type 0 where
  pub cells : Cells
  pub valid : IsValid s.queue cells
  pub kept : Kept s.queue.sort (old ++ s.history.pushed) (s.history.removed ++ contents cells)

Called-Held :
    (old : List ℕ) (req : Request) (q r : Queue) (cs : Cells) (reply : Reply (ℤ × ℕ))
    (es : List Event) (us : List Thread) (h : History)
    → IsValid q cs
    → Kept q.sort (old ++ h.pushed) (h.removed ++ contents cs)
    → Called req q cs reply r es
    → Held old (system r us (after_call req q reply h))
Called-Held old req q r cs reply es us h v k c = record {
  cells = c.after.cells;
  valid = c.after.valid;
  kept =
      subst
        (λ b.
          Kept b (old ++ (after_call req q reply h).pushed)
            ((after_call req q reply h).removed ++ contents c.after.cells))
        (sym c.after.sort)
        (subst
          (λ xs.
            Kept q.sort (old ++ (after_call req q reply h).pushed)
              ((after_call req q reply h).removed ++ xs))
          (sym c.after.is_spec)
          (subst
            (λ rep.
              Kept q.sort (old ++ (after_call req q rep h).pushed)
                ((after_call req q rep h).removed ++ (answer req q (contents cs)).contents))
            (sym c.reply_is)
            (answer-Kept req q old (contents cs) h (contents_of-contents q cs v) k)));
}

pub resumed_CanAllocate :
    (t : Task) (new : Ptr) (q : Queue) → Allocates q new → CanAllocate (request_of t new) q
resumed_CanAllocate (writes ele) new q fresh = fresh
resumed_CanAllocate reads new q fresh = tt

-- A run of a woken thread in a valid queue.
pub run-resumed :
    (t : Task) (new : Ptr) (q : Queue) (cs : Cells) (reply : Reply (ℤ × ℕ)) (r : Queue)
    (es : List Event)
    → IsValid q cs
    → Allocates q new
    → resume t new q ≡ ok reply r
    → r.events ≡ q.events ++ es
    → Called (request_of t new) q cs reply r es
run-resumed t new q cs reply r es v fresh runs sends =
    run-Called (request_of t new) q cs reply r es v (resumed_CanAllocate t new q fresh)
      (sym (resume-perform t new q) ∙ runs) sends

pub unlocked-IsValid :
    (q : Queue) (cs : Cells) (allowed : Bool)
    → IsValid q cs
    → IsValid (record q { allowed_new_data = allowed; locked = false }) cs
unlocked-IsValid q cs allowed v = record {
  holds = record {
    chain = v.holds.chain;
    first = v.holds.first;
    last = v.holds.last;
    count = v.holds.count;
  };
  bounded = v.bounded;
  small = v.small;
  ordered = v.ordered;
}

pub Announced-IsValid :
    {q r : Queue} {es : List Event} (cs : Cells) → Announced q r es → IsValid q cs → IsValid r cs
Announced-IsValid cs (allowed_again on) v = v
Announced-IsValid cs (announced off) v = record {
  holds = record {
    chain = v.holds.chain;
    first = v.holds.first;
    last = v.holds.last;
    count = v.holds.count;
  };
  bounded = v.bounded;
  small = v.small;
  ordered = v.ordered;
}

-- A broadcast leaves the settings.
pub Announced-sort : {q r : Queue} {es : List Event} → Announced q r es → r.sort ≡ q.sort
Announced-sort (allowed_again on) = refl
Announced-sort (announced off) = refl

pub Announced-direction :
    {q r : Queue} {es : List Event} → Announced q r es → r.ascending_order ≡ q.ascending_order
Announced-direction (allowed_again on) = refl
Announced-direction (announced off) = refl

pub Announced-comparator :
    {q r : Queue} {es : List Event} → Announced q r es → r.cmp_ele_fun ≡ q.cmp_ele_fun
Announced-comparator (allowed_again on) = refl
Announced-comparator (announced off) = refl

Step-Held : (old : List ℕ) {s t : System} → Step s t → Held old s → Held old t
Step-Held old (call pre post us req q r reply es h unlocked fresh runs sends del) held =
    Called-Held old req q r held.cells reply es us h held.valid held.kept
      (run-Called req q held.cells reply r es held.valid fresh runs sends)
Step-Held old (go_on pre post us t new q r reply es h unlocked fresh runs sends del) held =
    let g =
      Called-Held old (request_of t new) q r held.cells reply es us h held.valid held.kept
        (run-resumed t new q held.cells reply r es held.valid fresh runs sends) in
    record { cells = g.cells; valid = g.valid; kept = g.kept }
Step-Held old (wake_by_itself pre post c t q h) held = record {
  cells = held.cells;
  valid = held.valid;
  kept = held.kept;
}
Step-Held old (sets_flag pre post allowed q r h unlocked runs) held =
    subst (λ s. Held old (system s (pre ++ announcing ∷ post) h))
      (run-set_flag allowed true q r runs)
      (record {
        cells = held.cells;
        valid = unlocked-IsValid q held.cells allowed held.valid;
        kept = held.kept;
      })
Step-Held old (announces pre post us c q r es h runs sends del) held =
    let done = run-Announced c q r es runs sends in
    record {
      cells = held.cells;
      valid = Announced-IsValid held.cells done held.valid;
      kept =
          subst (λ b. Kept b (old ++ h.pushed) (h.removed ++ contents held.cells))
            (sym (Announced-sort done)) held.kept;
    }

pub Reach-Held : (old : List ℕ) {s t : System} → Reach s t → Held old s → Held old t
Reach-Held old here held = held
Reach-Held old (later before step) held = Step-Held old step (Reach-Held old before held)

same-Kept : (sort : Bool) (xs : List ℕ) → Kept sort xs xs
same-Kept sort xs = record { elements = Perm.refl xs; in_order = λ plain. refl }

-- Nothing has happened yet.
abbrev pub no_history : History
no_history = record { pushed = []; removed = []; lost = 0 }

pub nothing_yet :
    (q : Queue) (cs : Cells) (ts : List Thread)
    → IsValid q cs
    → Held (contents cs) (system q ts no_history)
nothing_yet q cs ts v = record {
  cells = cs;
  valid = v;
  kept = rw append-nil (same-Kept q.sort (contents cs));
}

-- Whatever any number of threads do with a valid queue, in any interleaving, with any choice of whom a
-- signal wakes and with threads that wake up by themselves: the object stays valid, the elements popped
-- and flushed so far and those still held are together exactly the ones held at first and pushed since,
-- and they left in the order in which they came when the queue does not sort.
-- The mutex works, and calloc gives NULL or a free address.
pub Reach-conserves :
    (q : Queue) (cs : Cells) (ts : List Thread) (s : System)
    → IsValid q cs
    → Reach (system q ts no_history) s
    → (ds : Cells) × IsValid s.queue ds
      × Perm (contents cs ++ s.history.pushed) (s.history.removed ++ contents ds)
      × ((s.queue.sort ≡ true)
          ⊎ (contents cs ++ s.history.pushed ≡ s.history.removed ++ contents ds))
Reach-conserves q cs ts s v reach =
    let held = Reach-Held (contents cs) reach (nothing_yet q cs ts v) in
    (
      held.cells,
      held.valid,
      held.kept.elements,
      elim (Bool-cases s.queue.sort) [
        | inl sorts ↦ inl sorts
        | inr plain ↦ inr (held.kept.in_order plain)
      ],
    )

-- In every state that the threads reach, every call a thread may make next refines the abstract queue:
-- it neither faults nor gets stuck. calloc gives NULL or a free address.
pub Reach-Answers :
    (q : Queue) (cs : Cells) (ts : List Thread) (s : System) (req : Request)
    → IsValid q cs
    → Reach (system q ts no_history) s
    → CanAllocate req s.queue
    → (ds : Cells) × IsValid s.queue ds × Answers req s.queue ds (answer req s.queue (contents ds))
Reach-Answers q cs ts s req v reach fresh =
    let (ds, valid, elements, in_order) = Reach-conserves q cs ts s v reach in
    (ds, valid, perform-answer req s.queue ds valid fresh)
