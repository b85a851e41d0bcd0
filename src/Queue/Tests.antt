-- ===== src/Queue/Tests.antt =====
-- Runs of the queue on concrete objects, and the theorems applied to them.
use tools_on_linux.Prelude.Int.{negsuc, pos}
use tools_on_linux.Queue.Contract.Pushes.{push-After}
use tools_on_linux.Queue.Contract.Waits.{push_and_wait-push, pop_and_wait-pop}
use tools_on_linux.Queue.Order.{inserted_as}
use tools_on_linux.Queue.Contract.Pops.{pop-After, peek-After, flush_and_callback-After}
use tools_on_linux.Queue.Calls.{
  pop, release, push_and_wait, push, pop_and_wait, peek, flush_and_callback,
}
use tools_on_linux.Queue.Contract.Closes.{release-runs, busy_then_ok}
use tools_on_linux.Queue.State.{
  cond_get, cond_put, signal, flushed, destroyed, broadcast, waits, returned, ok, q_ok, Queue,
  MutexResults, Compare,
}
use tools_on_linux.Queue.Represents.{After, IsValid}
use tools_on_linux.Memory.{Ptr, write, null, element, Heap}
use tools_on_linux.Memory.Chain.{has, Cells}
use tools_on_linux.Queue.Pushing.{push_code, Allocates}
use tools_on_linux.Prelude.{
  ltb, if◌then◌else◌, if◌then◌else◌, ◌≡◌, refl, true, false, none, some, [], ◌∷◌, inl, arith,
}

-- Two elements, 42 and 7, at the addresses 1 and 2.
abbrev two_heap : Heap
two_heap = write (write (λ _. none) 1 (some (element 42 2))) 2 (some (element 7 null))

abbrev two_cells : Cells
two_cells = (1, 42) ∷ (2, 7) ∷ []

abbrev two_elements : Queue
two_elements = record {
  used_first_element = 1;
  used_last_element = 2;
  used_element_cnts = 2;
  capability = 3;
  allowed_new_data = true;
  sort = false;
  ascending_order = true;
  cmp_ele_fun = none;
  locked = false;
  heap = two_heap;
  events = [];
}

two_elements-IsValid : IsValid two_elements two_cells
unfolding write
two_elements-IsValid = record {
  holds = record {
    chain = (omega arith, refl, refl, (omega arith, refl, refl, tt));
    first = refl;
    last = refl;
    count = refl;
  };
  bounded = omega arith;
  small = omega arith;
  ordered = inl refl;
}

-- The mutex works.
abbrev works : MutexResults
works = record { lock_result = 0; unlock_result = 0 }

three_free : Allocates two_elements 3
unfolding write
three_free ne = refl

push-After_example :
    (r : Queue) × (push works 3 5 two_elements ≡ ok (returned q_ok) r)
    × After two_elements two_cells (42 ∷ 7 ∷ 5 ∷ []) (signal cond_get ∷ []) r
    × (r.locked ≡ false)
unfolding push_code inserted_as
push-After_example =
    push-After works two_elements two_cells 3 5 two_elements-IsValid three_free refl

pop-After_example :
    (r : Queue) × (pop works 9 two_elements ≡ ok (returned (q_ok, 42)) r)
    × After two_elements two_cells (7 ∷ []) (signal cond_put ∷ []) r
    × (r.locked ≡ false)
pop-After_example = pop-After works two_elements two_cells 9 two_elements-IsValid refl

peek-After_example :
    (r : Queue) × (peek works (pos 1) two_elements ≡ ok (q_ok, 7) r)
    × After two_elements two_cells (42 ∷ 7 ∷ []) [] r
    × (r.locked ≡ false)
peek-After_example = peek-After works two_elements two_cells (pos 1) two_elements-IsValid refl

flush_and_callback-After_example :
    (r : Queue) × (flush_and_callback works (some 8) two_elements ≡ ok q_ok r)
    × After two_elements two_cells [] (flushed 8 42 ∷ flushed 8 7 ∷ []) r
    × (r.locked ≡ false)
flush_and_callback-After_example =
    flush_and_callback-After works two_elements two_cells (some 8) two_elements-IsValid refl

-- The same object at its limit.
abbrev full : Queue
full = record two_elements { capability = 2 }

push_and_wait-push_example :
    push_and_wait works 3 5 full ≡ ok (waits cond_put) (record full { locked = false })
push_and_wait-push_example = push_and_wait-push works full 3 5 refl

-- A queue with no element.
abbrev empty : Queue
empty = record two_elements {
  used_first_element = null;
  used_last_element = null;
  used_element_cnts = 0;
}

pop_and_wait-pop_example :
    pop_and_wait works empty ≡ ok (waits cond_get) (record empty { locked = false })
pop_and_wait-pop_example = pop_and_wait-pop works empty refl

abbrev by_number : Compare
by_number a b = if ltb a b then negsuc 0 else if ltb b a then pos 1 else pos 0

release-runs_example :
    (r : Queue) × (release works works (busy_then_ok 2) two_elements ≡ ok 0 r)
    × (r.allowed_new_data ≡ false)
    × (r.used_element_cnts ≡ 0)
    × (r.events
        ≡ broadcast cond_get ∷ broadcast cond_put ∷ destroyed cond_get ∷ destroyed cond_put ∷ [])
    × ((a : Ptr) → r.heap a ≡ (if has a two_cells then none else two_heap a))
release-runs_example =
    release-runs works works two_elements two_cells 2 two_elements-IsValid refl refl
