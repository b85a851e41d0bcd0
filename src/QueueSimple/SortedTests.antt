-- ===== src/QueueSimple/SortedTests.antt =====
-- Two pushes into a sorted queue that is ordered by cmp_int_ptr.
use tools_on_linux.QueueSimple.{cmp_int_ptr, cmp_int_ptr-IsComparator}
use tools_on_linux.Memory.{Heap, write, null, element}
use tools_on_linux.Memory.Chain.{contents, Cells}
use tools_on_linux.Queue.State.{
  Queue, Compare, load, set_next, q_ok, lock, unlock, returned, signal, cond_get,
}
use tools_on_linux.Queue.Represents.{IsValid, After}
use tools_on_linux.Queue.Ordered.{IsOrdered}
use tools_on_linux.Queue.Push.{
  push_insert, push_element, push_allocated, link_last, link_sorted, goes_first, comparator,
}
use tools_on_linux.Queue.Calls.{push, enter, leave, leave_reply}
use tools_on_linux.Queue.Threads.System.{working, running, perform, pushes, pops, wakes_none, done}
use tools_on_linux.Queue.Threads.Steps.{System, system, History, Reach, here, later, call}
use tools_on_linux.Queue.Threads.Held.{no_history}
use tools_on_linux.Queue.Threads.Answers.{pop_answer}
use tools_on_linux.Queue.Threads.Refines.{Answers}
use tools_on_linux.Queue.Threads.Sorted.{Reach-sorted}
use tools_on_linux.Queue.Contract.Sorts.{push-Sorts}
use tools_on_linux.Queue.Sorting.{IsSorted}
use tools_on_linux.Prelude.{[], ◌∷◌, ◌≡◌, refl, true, false, none, some, inr, arith}
use tools_on_linux.Prelude.Int.{pos}
use tools_on_linux.Prelude.Outcome.{ok}

-- The struct at an address holds that number.
abbrev by_value : Compare
by_value = cmp_int_ptr pos

abbrev empty : Queue
empty = record {
  used_first_element = null;
  used_last_element = null;
  used_element_cnts = 0;
  capability = 2;
  allowed_new_data = true;
  sort = true;
  ascending_order = true;
  cmp_ele_fun = some by_value;
  locked = false;
  heap = λ _. none;
  events = [];
}

empty-IsValid : IsValid empty []
empty-IsValid = record {
  holds = record { chain = tt; first = refl; last = refl; count = refl };
  bounded = omega arith;
  small = omega arith;
  ordered = inr (by_value, refl, refl);
}

abbrev first_heap : Heap
first_heap = write (λ _. none) 8 (some (element 5 null))

abbrev with_five : Queue
with_five = record empty {
  used_first_element = 8;
  used_last_element = 8;
  used_element_cnts = 1;
  heap = first_heap;
  events = signal cond_get ∷ [];
}

five_runs : perform (pushes false 8 5) empty ≡ ok (returned (q_ok, null)) with_five
unfolding perform push enter lock leave leave_reply unlock push_element push_insert push_allocated
    link_last link_sorted
five_runs = refl

-- 3 goes in front of 5.
abbrev with_three : Queue
with_three = record with_five {
  used_first_element = 16;
  used_element_cnts = 2;
  heap = write (write first_heap 16 (some (element 3 null))) 16 (some (element 3 8));
  events = signal cond_get ∷ signal cond_get ∷ [];
}

three_runs : perform (pushes false 16 3) with_five ≡ ok (returned (q_ok, null)) with_three
unfolding perform push enter lock leave leave_reply unlock push_element push_insert push_allocated
    link_last link_sorted load set_next write goes_first cmp_int_ptr comparator
three_runs = refl

abbrev five_pushed : History
five_pushed = record { pushed = 5 ∷ []; removed = []; lost = 0 }

abbrev both_pushed : History
both_pushed = record { pushed = 5 ∷ 3 ∷ []; removed = []; lost = 0 }

abbrev after_both : System
after_both = system with_three (running ∷ []) both_pushed

pushes_run : Reach (system empty (running ∷ []) no_history) after_both
unfolding write
pushes_run =
    later
      (later here (
        call [] [] (running ∷ []) (pushes false 8 5) empty with_five (returned (q_ok, null))
          (signal cond_get ∷ []) no_history refl (λ ne. refl) five_runs refl
          (wakes_none cond_get [] refl (done _))))
      (call [] [] (running ∷ []) (pushes false 16 3) with_five with_three (returned (q_ok, null))
        (signal cond_get ∷ []) five_pushed refl (λ ne. refl) three_runs refl
        (wakes_none cond_get [] refl (done _)))

Reach-sorted_example :
    (ds : Cells) × IsValid with_three ds
    × (with_three.sort ≡ true)
    × (with_three.ascending_order ≡ true)
    × (with_three.cmp_ele_fun ≡ some by_value)
    × IsOrdered true by_value (contents ds)
    × Answers (pops false) with_three ds (pop_answer false true (contents ds))
Reach-sorted_example =
    Reach-sorted empty by_value [] (running ∷ []) after_both (cmp_int_ptr-IsComparator pos)
      empty-IsValid refl refl tt pushes_run

-- 3 is pushed into the queue that has 5.
with_five-IsValid : IsValid with_five ((8, 5) ∷ [])
unfolding write
with_five-IsValid = record {
  holds = record {
    chain = (λ e. absurd (omega (arith, e)), refl, refl, tt);
    first = refl;
    last = refl;
    count = refl;
  };
  bounded = omega arith;
  small = omega arith;
  ordered = inr (by_value, refl, refl);
}

push-Sorts_example :
    (r : Queue) × (push working 16 3 with_five ≡ ok (returned q_ok) r)
    × After with_five ((8, 5) ∷ []) (3 ∷ 5 ∷ []) (signal cond_get ∷ []) r
    × IsSorted true by_value (3 ∷ 5 ∷ [])
unfolding write cmp_int_ptr
push-Sorts_example =
    push-Sorts working with_five ((8, 5) ∷ []) 16 3 by_value with_five-IsValid (λ ne. refl)
      (λ e. absurd (omega (arith, e))) refl refl (omega arith) refl refl
      (cmp_int_ptr-IsComparator pos) tt
