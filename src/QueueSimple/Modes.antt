-- ===== src/QueueSimple/Modes.antt =====
-- The three mode functions of QueueSimple.cpp, which construct a queue each. `value` gives the field of
-- that name for the struct at an address.
use tools_on_linux.QueueSimple.{cmp_int_ptr, cmp_int_ptr-IsComparator}
use tools_on_linux.Queue.Sorting.{IsComparator}
use tools_on_linux.Queue.Contract.Observes.{new_queue-IsValid}
use tools_on_linux.Queue.Represents.{IsValid}
use tools_on_linux.Queue.Calls.{init, order, new_queue}
use tools_on_linux.Queue.State.{Queue, Compare}
use tools_on_linux.Memory.{Heap}
use tools_on_linux.Prelude.{ℕ, ◌^◌, ◌-◌, true, Option, none, some, [], ◌≡◌, arith}
use tools_on_linux.Prelude.Int.{ℤ}

unfoldable unsorted_mode : Heap → Queue
unsorted_mode h = init h

unfoldable sorted_mode : (ℕ → ℤ) → Heap → Queue
sorted_mode value h = order true (some (cmp_int_ptr value)) (init h)

unfoldable sorted2_mode : (ℕ → ℤ) → Heap → Queue
sorted2_mode value h = new_queue h 3 true (some (cmp_int_ptr value))

-- An empty valid queue of that capability, whose comparator, if it has one, keeps to its contract.
abbrev Starts : Queue → ℕ → Option Compare → Type 0
Starts q n cmp = IsValid q [] × (q.capability ≡ n) × (q.cmp_ele_fun ≡ cmp)

-- Each mode starts from an empty valid queue: without a limit but INT32_MAX - 1 and unsorted, without one
-- and sorted, and for three elements and sorted; the comparator of the sorted ones keeps to the contract
-- that the queue asks for.
modes-Starts :
    (value : ℕ → ℤ) (h : Heap)
    → let cmp = cmp_int_ptr value in
      Starts (unsorted_mode h) (2 ^ 31 - 2) none
      × Starts (sorted_mode value h) (2 ^ 31 - 2) (some cmp)
      × Starts (sorted2_mode value h) 3 (some cmp)
      × IsComparator cmp
unfolding unsorted_mode sorted_mode sorted2_mode init new_queue
modes-Starts value h =
    let cmp = cmp_int_ptr value in
    let (valid, capability, allowed, compares, sort, direction, heap) =
      new_queue-IsValid h 0 true none (omega arith) in
    let (valid', capability', allowed', compares', sort', direction', heap') =
      new_queue-IsValid h 0 true (some cmp) (omega arith) in
    let (valid'', capability'', allowed'', compares'', sort'', direction'', heap'') =
      new_queue-IsValid h 3 true (some cmp) (omega arith) in
    (
      (valid, capability, compares),
      (valid', capability', compares'),
      (valid'', capability'', compares''),
      cmp_int_ptr-IsComparator value,
    )
