-- ===== src/Queue/Threads/Sorted.antt =====
-- The order of a sorted queue through every interleaving of the threads.
use tools_on_linux.Prelude.{
  ℕ, ◌==◌, Bool, true, false, ◌&&◌, some, List, [], ◌∷◌, ◌++◌, if◌then◌else◌, ◌≡◌, refl, sym, ◌∙◌,
  subst, inl, inr, Bool-cases,
}
use tools_on_linux.Prelude.Int.{ℤ}
use tools_on_linux.Memory.Chain.{contents, Cells}
use tools_on_linux.Queue.State.{Queue, Compare, Event, Reply, is_ok}
use tools_on_linux.Queue.Represents.{IsValid}
use tools_on_linux.Queue.Order.{inserted}
use tools_on_linux.Queue.Pushing.{push_code}
use tools_on_linux.Queue.Sorting.{before, IsComparator, IsSorted, inserted-IsSorted}
use tools_on_linux.Queue.Ordered.{tail-IsSorted, IsOrdered, IsSorted-IsOrdered}
use tools_on_linux.Queue.Threads.System.{
  Thread, Request, pushes, pops, peeks, flushes, counts, asks_empty, asks_allowed, request_of,
  announcing,
}
use tools_on_linux.Queue.Threads.Steps.{
  System, system, History, Step, call, go_on, wake_by_itself, sets_flag, announces, Reach, here,
  later,
}
use tools_on_linux.Queue.Threads.Answers.{answer, pop_answer}
use tools_on_linux.Queue.Threads.Refines.{Answers, perform-answer}
use tools_on_linux.Queue.Threads.Called.{Called, run-Called, run-set_flag, run-Announced}
use tools_on_linux.Queue.Threads.Held.{
  run-resumed, no_history, unlocked-IsValid, Announced-IsValid, Announced-sort, Announced-direction,
  Announced-comparator,
}

module _ (cmp : Compare) (law : IsComparator cmp) where
  push_contents-IsSorted :
      (code : Bool) (q : Queue) (ele : ℕ) (xs : List ℕ)
      → q.sort ≡ true
      → q.cmp_ele_fun ≡ some cmp
      → IsSorted q.ascending_order cmp xs
      → IsSorted q.ascending_order cmp (if code then inserted q ele xs else xs)
  push_contents-IsSorted true q ele xs sorts has h =
      (inserted-IsSorted q cmp ele xs law sorts has h).0
  push_contents-IsSorted false q ele xs sorts has h = h

  -- Every call on the abstract queue keeps the order.
  answer-IsSorted :
      (req : Request) (q : Queue) (xs : List ℕ)
      → q.sort ≡ true
      → q.cmp_ele_fun ≡ some cmp
      → IsSorted q.ascending_order cmp xs
      → IsSorted q.ascending_order cmp (answer req q xs).contents
  unfolding answer
  answer-IsSorted (pushes w new ele) q xs sorts has h =
      elim (Bool-cases (w && q.allowed_new_data && q.used_element_cnts == q.capability)) [
        | inl sleeps ↦ rw sleeps h
        | inr goes ↦ rw goes (push_contents-IsSorted (is_ok (push_code q new)) q ele xs sorts has h)
      ]
  answer-IsSorted (pops true) q [] sorts has h = elim (Bool-cases q.allowed_new_data) [
    | inl on ↦ rw on tt
    | inr off ↦ rw off tt
  ]
  answer-IsSorted (pops false) q [] sorts has h = tt
  answer-IsSorted (pops w) q (x ∷ xs) sorts has h = tail-IsSorted q.ascending_order cmp x xs h
  answer-IsSorted (peeks i) q xs sorts has h = h
  answer-IsSorted (flushes fcb) q xs sorts has h = tt
  answer-IsSorted counts q xs sorts has h = h
  answer-IsSorted asks_empty q xs sorts has h = h
  answer-IsSorted asks_allowed q xs sorts has h = h

-- The object is valid, has the order asked for, and holds its elements in that order.
pub record Sorted (asc : Bool) (cmp : Compare) (s : System) : Type 0 where
  pub cells : Cells
  pub valid : IsValid s.queue cells
  pub sorts : s.queue.sort ≡ true
  pub direction : s.queue.ascending_order ≡ asc
  pub compares : s.queue.cmp_ele_fun ≡ some cmp
  pub in_order : IsSorted asc cmp (contents cells)

module _ (asc : Bool) (cmp : Compare) (law : IsComparator cmp) where
  Called-Sorted :
      (req : Request) (q r : Queue) (reply : Reply (ℤ × ℕ)) (es : List Event) (ts us : List Thread)
      (g h : History) (k : Sorted asc cmp (system q ts g))
      → Called req q k.cells reply r es
      → Sorted asc cmp (system r us h)
  Called-Sorted req q r reply es ts us g h k c = record {
    cells = c.after.cells;
    valid = c.after.valid;
    sorts = c.after.sort ∙ k.sorts;
    direction = c.after.ascending ∙ k.direction;
    compares = c.after.cmp ∙ k.compares;
    in_order =
        subst (λ xs. IsSorted asc cmp xs) (sym c.after.is_spec)
          (subst (λ b. IsSorted b cmp (answer req q (contents k.cells)).contents) k.direction
            (answer-IsSorted cmp law req q (contents k.cells) k.sorts k.compares
              (subst (λ b. IsSorted b cmp (contents k.cells)) (sym k.direction) k.in_order)));
  }

  Step-Sorted : {s t : System} → Step s t → Sorted asc cmp s → Sorted asc cmp t
  Step-Sorted (call pre post us req q r reply es h unlocked fresh runs sends del) k =
      Called-Sorted req q r reply es _ us h _ k
        (run-Called req q k.cells reply r es k.valid fresh runs sends)
  Step-Sorted (go_on pre post us t new q r reply es h unlocked fresh runs sends del) k =
      Called-Sorted (request_of t new) q r reply es _ us h _ k
        (run-resumed t new q k.cells reply r es k.valid fresh runs sends)
  Step-Sorted (wake_by_itself pre post c t q h) k = record {
    cells = k.cells;
    valid = k.valid;
    sorts = k.sorts;
    direction = k.direction;
    compares = k.compares;
    in_order = k.in_order;
  }
  Step-Sorted (sets_flag pre post allowed q r h unlocked runs) k =
      subst (λ s. Sorted asc cmp (system s (pre ++ announcing ∷ post) h))
        (run-set_flag allowed true q r runs)
        (record {
          cells = k.cells;
          valid = unlocked-IsValid q k.cells allowed k.valid;
          sorts = k.sorts;
          direction = k.direction;
          compares = k.compares;
          in_order = k.in_order;
        })
  Step-Sorted (announces pre post us c q r es h runs sends del) k =
      let done = run-Announced c q r es runs sends in
      record {
        cells = k.cells;
        valid = Announced-IsValid k.cells done k.valid;
        sorts = Announced-sort done ∙ k.sorts;
        direction = Announced-direction done ∙ k.direction;
        compares = Announced-comparator done ∙ k.compares;
        in_order = k.in_order;
      }

  Reach-Sorted : {s t : System} → Reach s t → Sorted asc cmp s → Sorted asc cmp t
  Reach-Sorted here k = k
  Reach-Sorted (later before step) k = Step-Sorted step (Reach-Sorted before k)

-- A sorted queue stays sorted whatever any number of threads do with it, in any interleaving: its
-- settings stay, each element it holds may stand before every one behind it, and a pop hands out the
-- first of them. The comparator keeps to its contract, the elements are in order at first, the mutex
-- works, and calloc gives NULL or a free address.
pub Reach-sorted :
    (q : Queue) (cmp : Compare) (cs : Cells) (ts : List Thread) (s : System)
    → IsComparator cmp
    → IsValid q cs
    → q.sort ≡ true
    → q.cmp_ele_fun ≡ some cmp
    → IsSorted q.ascending_order cmp (contents cs)
    → Reach (system q ts no_history) s
    → (ds : Cells) × IsValid s.queue ds
      × (s.queue.sort ≡ true)
      × (s.queue.ascending_order ≡ q.ascending_order)
      × (s.queue.cmp_ele_fun ≡ some cmp)
      × IsOrdered q.ascending_order cmp (contents ds)
      × Answers (pops false) s.queue ds (pop_answer false s.queue.allowed_new_data (contents ds))
unfolding answer
Reach-sorted q cmp cs ts s law v sorts has sorted reach =
    let k = Reach-Sorted q.ascending_order cmp law reach (record {
      cells = cs;
      valid = v;
      sorts = sorts;
      direction = refl;
      compares = has;
      in_order = sorted;
    }) in
    (
      k.cells,
      k.valid,
      k.sorts,
      k.direction,
      k.compares,
      IsSorted-IsOrdered cmp law q.ascending_order (contents k.cells) k.in_order,
      perform-answer (pops false) s.queue k.cells k.valid tt,
    )
