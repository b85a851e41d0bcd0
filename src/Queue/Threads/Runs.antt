-- ===== src/Queue/Threads/Runs.antt =====
-- Runs of two and of three threads on a queue with one place.
use tools_on_linux.Prelude.Int.{pos}
use tools_on_linux.Queue.Flush.{flush_loop, flush_elements}
use tools_on_linux.Queue.Threads.Refines.{resume-perform}
use tools_on_linux.Queue.Pop.{find_match, take_first, pop_wait, pop_take, pop_element}
use tools_on_linux.Queue.Push.{push_allocated, link_last, push_insert, push_element}
use tools_on_linux.Queue.Contract.Waits.{push_and_wait-push, pop_and_wait-pop}
use tools_on_linux.Prelude.Outcome.{ok}
use tools_on_linux.Queue.Threads.Held.{no_history}
use tools_on_linux.Queue.Calls.{
  get_cnt, set_flag, flush_and_callback, announce, pop_and_wait, push, leave_reply, leave, enter,
}
use tools_on_linux.Queue.Threads.System.{
  counts, wakes_none, wakes_all, flushes, writes, woken, wakes_one, working, running, reads, pushes,
  pops, perform, done, asleep, Thread,
}
use tools_on_linux.Queue.State.{
  broadcast, load, free, cond_put, waits, unlock, signal, returned, q_ok, lock, cond_get, Queue,
}
use tools_on_linux.Queue.Represents.{IsValid}
use tools_on_linux.Queue.Threads.Steps.{
  walk, sets_flag, announces, go_on, System, system, later, here, call, Reach, History,
}
use tools_on_linux.Memory.{write, null, element, Heap}
use tools_on_linux.Prelude.{List, ◌≡◌, [], ◌∷◌, true, false, arith, refl, ◌∙◌, none, some, inl}

abbrev pub one_place : Queue
one_place = record {
  used_first_element = null;
  used_last_element = null;
  used_element_cnts = 0;
  capability = 1;
  allowed_new_data = true;
  sort = false;
  ascending_order = true;
  cmp_ele_fun = none;
  locked = false;
  heap = λ _. none;
  events = [];
}

pub one_place-IsValid : IsValid one_place []
one_place-IsValid = record {
  holds = record { chain = tt; first = refl; last = refl; count = refl };
  bounded = omega arith;
  small = omega arith;
  ordered = inl refl;
}

abbrev pub three_outside : List Thread
three_outside = running ∷ running ∷ running ∷ []

abbrev pub start : System
start = system one_place three_outside no_history

abbrev pub fresh_heap : Heap
fresh_heap = write (λ _. none) 8 (some (element 5 null))

-- After `push(5)`.
abbrev pub holds_five : Queue
holds_five = record one_place {
  used_first_element = 8;
  used_last_element = 8;
  used_element_cnts = 1;
  heap = fresh_heap;
  events = signal cond_get ∷ [];
}

abbrev pub five_pushed : History
five_pushed = record { pushed = 5 ∷ []; removed = []; lost = 0 }

push_runs : perform (pushes false 8 5) one_place ≡ ok (returned (q_ok, null)) holds_five
unfolding perform push enter lock leave leave_reply unlock push_element push_insert push_allocated
    link_last
push_runs = refl

abbrev pub five_taken : Queue
five_taken = record one_place {
  heap = write fresh_heap 8 none;
  events = signal cond_get ∷ signal cond_put ∷ [];
}

pop_runs : perform (pops true) holds_five ≡ ok (returned (q_ok, 5)) five_taken
unfolding perform pop_and_wait enter lock leave leave_reply unlock pop_element pop_wait pop_take
    take_first load free write find_match
pop_runs = refl

two_asleep :
    Reach start
      (system one_place (asleep cond_get reads ∷ asleep cond_get reads ∷ running ∷ []) no_history)
unfolding perform
two_asleep =
    later
      (later here (
        call [] (running ∷ running ∷ []) (asleep cond_get reads ∷ running ∷ running ∷ [])
          (pops true) one_place one_place (waits cond_get) [] no_history refl tt
          (pop_and_wait-pop working one_place refl) refl (done _)))
      (call (asleep cond_get reads ∷ []) (running ∷ [])
        (asleep cond_get reads ∷ asleep cond_get reads ∷ running ∷ []) (pops true) one_place
        one_place (waits cond_get) [] no_history refl tt (pop_and_wait-pop working one_place refl)
        refl (done _))

one_woken :
    Reach start (system holds_five (woken reads ∷ asleep cond_get reads ∷ running ∷ []) five_pushed)
one_woken = later two_asleep (
    call (asleep cond_get reads ∷ asleep cond_get reads ∷ []) []
      (woken reads ∷ asleep cond_get reads ∷ running ∷ []) (pushes false 8 5) one_place holds_five
      (returned (q_ok, null)) (signal cond_get ∷ []) no_history refl (λ ne. refl) push_runs refl
      (wakes_one cond_get [] [] (asleep cond_get reads ∷ running ∷ []) reads (done _)))

writer_runs : perform (pushes true 9 6) holds_five ≡ ok (waits cond_put) holds_five
unfolding perform
writer_runs = rw (push_and_wait-push working holds_five 9 6 refl) refl

abbrev pub both_asleep : System
both_asleep =
    system holds_five (woken reads ∷ asleep cond_get reads ∷ asleep cond_put (writes 6) ∷ [])
      five_pushed

-- A reader and a writer sleep, and another reader is on its way.
pub both_asleep-Reach : Reach start both_asleep
unfolding write
both_asleep-Reach = later one_woken (
    call (woken reads ∷ asleep cond_get reads ∷ []) []
      (woken reads ∷ asleep cond_get reads ∷ asleep cond_put (writes 6) ∷ []) (pushes true 9 6)
      holds_five holds_five (waits cond_put) [] five_pushed refl (λ ne. refl) writer_runs refl
      (done _))

abbrev pub five_removed : History
five_removed = record { pushed = 5 ∷ []; removed = 5 ∷ []; lost = 0 }

abbrev pub writer_woken : System
writer_woken =
    system five_taken (running ∷ asleep cond_get reads ∷ woken (writes 6) ∷ []) five_removed

pub writer_woken-Reach : Reach start writer_woken
writer_woken-Reach = later both_asleep-Reach (
    go_on [] (asleep cond_get reads ∷ asleep cond_put (writes 6) ∷ [])
      (running ∷ asleep cond_get reads ∷ woken (writes 6) ∷ []) reads null holds_five five_taken
      (returned (q_ok, 5)) (signal cond_put ∷ []) five_pushed refl (λ ne. absurd (ne refl))
      (resume-perform reads null holds_five ∙ pop_runs) refl
      (wakes_one cond_put [] (running ∷ asleep cond_get reads ∷ []) [] (writes 6) (done _)))

-- The queue is closed while the two readers sleep.
abbrev pub closing : Queue
closing = record one_place { allowed_new_data = false }

abbrev pub closed : Queue
closed = record closing { events = broadcast cond_get ∷ broadcast cond_put ∷ [] }

abbrev pub all_awake : System
all_awake = system closed (woken reads ∷ woken reads ∷ running ∷ []) no_history

pub all_awake-Reach : Reach start all_awake
unfolding set_flag lock unlock announce
all_awake-Reach =
    later
      (later two_asleep (
        sets_flag (asleep cond_get reads ∷ asleep cond_get reads ∷ []) [] false one_place closing
          no_history refl refl))
      (announces (asleep cond_get reads ∷ asleep cond_get reads ∷ []) []
        (woken reads ∷ woken reads ∷ running ∷ []) q_ok closing closed
        (broadcast cond_get ∷ broadcast cond_put ∷ []) no_history refl refl
        (wakes_all cond_get _ (wakes_all cond_put [] (done _))))

-- A flush wakes no writer: of two threads, one waits for a place and one for an element of a queue that
-- has the place and no element, and none is on its way.
abbrev pub two_outside : List Thread
two_outside = running ∷ running ∷ []

abbrev pub flushed_five : Queue
flushed_five = record one_place { heap = write fresh_heap 8 none; events = signal cond_get ∷ [] }

flush_runs : perform (flushes none) holds_five ≡ ok (returned (q_ok, null)) flushed_five
unfolding perform flush_and_callback enter lock leave unlock flush_elements flush_loop load free
    write
flush_runs = refl

abbrev pub flushed_history : History
flushed_history = record { pushed = 5 ∷ []; removed = 5 ∷ []; lost = 1 }

empty_runs : perform (pops true) flushed_five ≡ ok (waits cond_get) flushed_five
unfolding perform
empty_runs = pop_and_wait-pop working flushed_five refl

flush_stops_both :
    Reach (system one_place two_outside no_history) (
      system flushed_five (asleep cond_get reads ∷ asleep cond_put (writes 6) ∷ []) flushed_history)
unfolding walk write
flush_stops_both =
    later
      (later
        (later
          (later here (
            call [] (running ∷ []) (running ∷ running ∷ []) (pushes false 8 5) one_place holds_five
              (returned (q_ok, null)) (signal cond_get ∷ []) no_history refl (λ ne. refl) push_runs
              refl (wakes_none cond_get [] refl (done _))))
          (call (running ∷ []) [] (running ∷ asleep cond_put (writes 6) ∷ []) (pushes true 9 6)
            holds_five holds_five (waits cond_put) [] five_pushed refl (λ ne. refl) writer_runs refl
            (done _)))
        (call [] (asleep cond_put (writes 6) ∷ []) (running ∷ asleep cond_put (writes 6) ∷ [])
          (flushes none) holds_five flushed_five (returned (q_ok, null)) [] five_pushed refl tt
          flush_runs refl (done _)))
      (call [] (asleep cond_put (writes 6) ∷ [])
        (asleep cond_get reads ∷ asleep cond_put (writes 6) ∷ []) (pops true) flushed_five
        flushed_five (waits cond_get) [] flushed_history refl tt empty_runs refl (done _))

pub counts_closed : perform counts closed ≡ ok (returned (pos 0, null)) closed
unfolding perform get_cnt enter lock leave unlock
counts_closed = refl
