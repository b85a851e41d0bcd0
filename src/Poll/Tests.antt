-- ===== src/Poll/Tests.antt =====
-- Runs of Poll on concrete objects, and the theorems applied to them.
use tools_on_linux.Poll.Releasing.{wakeup-Synced}
use tools_on_linux.Poll.Entering.{both_polling}
use tools_on_linux.Poll.Table.{remove_fd, find_from}
use tools_on_linux.Poll.Waiting.{Inv, no_lost_wakeup}
use tools_on_linux.Poll.State.{Fds, Poll}
use tools_on_linux.Poll.Watching.{IsTable}
use tools_on_linux.Poll.Wakeup.{Leaves, IsSynced}
use tools_on_linux.Poll.Failing.{remove_fd-small, add_fd-no_memory, Breaks}
use tools_on_linux.Poll.Adding.{add_fd-Adds, Adds}
use tools_on_linux.Prelude.{◌≡◌, refl, true, false, none, some, [], ◌∷◌, inr, arith}
use tools_on_linux.Prelude.Int.{pos}
use tools_on_linux.Prelude.Outcome.{fault}
use tools_on_linux.Poll.Control.{
  wake_event, release_wakeup, release_all_wakeup, raise_wakeup, moved, failed,
}
use tools_on_linux.Poll.Counting.{any_in_poll}
use tools_on_linux.Poll.Wait.{
  system, Reach, Answer, outside, polling, before_store, flushed_all, store_flag, test_waiting,
  raise, here, later,
}

-- Memory that realloc hands out.
abbrev blank : Fds
blank = λ _. record { fd = 0; events = 0; revents = 0 }

-- One descriptor, 5, in the control socket's entry, with the events of a new entry.
abbrev one_fd : Poll
one_fd = record {
  control_read_fd = 5;
  control_write_fd = 6;
  fds = some (λ _. record { fd = 5; events = 56; revents = 0 });
  fds_max_cnt = 8;
  fds_cnt = 1;
  controllable = true;
  control_pending = 0;
  flushing = 0;
  waiting = 0;
  control_bytes = 0;
  errno = 0;
}

one_fd-IsTable : IsTable one_fd
one_fd-IsTable = record { bounded = omega arith; array = inr (_, refl) }

one_fd-IsSynced : IsSynced one_fd
one_fd-IsSynced = record { bytes = refl; small = omega arith }

add_fd-Adds_example : Adds (some blank) 9 one_fd
add_fd-Adds_example = add_fd-Adds one_fd blank 9 one_fd-IsTable

-- The same table, with no room left.
abbrev full : Poll
full = record one_fd { fds_max_cnt = 1 }

add_fd-no_memory_example : Breaks 9 full
unfolding find_from
add_fd-no_memory_example =
    add_fd-no_memory full 9 (record { bounded = omega arith; array = inr (_, refl) }) refl refl

remove_fd-small_example : remove_fd 5 one_fd ≡ fault
unfolding find_from
remove_fd-small_example = remove_fd-small one_fd 5 one_fd-IsTable (omega arith)

wakeup-Synced_example :
    Leaves one_fd (raise_wakeup (failed 4 ∷ moved ∷ []) one_fd) true 1
    × Leaves one_fd (release_wakeup (failed 4 ∷ moved ∷ []) one_fd) false 0
    × Leaves one_fd (release_all_wakeup (failed 4 ∷ moved ∷ []) one_fd) false 0
wakeup-Synced_example =
    wakeup-Synced (failed 4 ∷ moved ∷ []) none one_fd one_fd-IsSynced (omega arith) refl

abbrev two_ready : Answer
two_ready = record { count = pos 2; fds = some blank }

-- One thread in poll(2) when setFlushing(true) begins.
abbrev one_waits : Poll
one_waits = record one_fd { waiting = 1 }

one_waits-Inv : Inv (system one_waits (polling ∷ []) before_store)
one_waits-Inv = record {
  counts = refl;
  few = omega arith;
  synced = record { bytes = refl; small = omega arith };
  controllable = refl;
  flushing = omega arith;
}

-- It is woken: mFlushing is set and one byte waits.
abbrev woken : Poll
woken = record one_waits { flushing = 1; control_pending = 1; control_bytes = 1 }

flushing_run :
    Reach (system one_waits (polling ∷ []) before_store) (system woken (polling ∷ []) flushed_all)
unfolding raise_wakeup wake_event
flushing_run =
    later
      (later (later here (store_flag one_waits (polling ∷ [])))
        (test_waiting (record one_waits { flushing = 1 }) (polling ∷ [])))
      (raise (moved ∷ []) (record one_waits { flushing = 1 }) woken (polling ∷ []) true refl refl)

one_flush_wakes :
    (woken.flushing ≡ 1)
    × (woken.waiting ≡ 1)
    × (any_in_poll (polling ∷ []) ≡ true → woken.control_bytes ≡ 1)
one_flush_wakes =
    no_lost_wakeup one_waits (polling ∷ []) (system woken (polling ∷ []) flushed_all) one_waits-Inv
      flushing_run refl

both_enter_run :
    Reach
      (system one_fd (outside ∷ outside ∷ []) flushed_all)
      (system (record one_fd { waiting = 2 }) (polling ∷ polling ∷ []) flushed_all)
both_enter_run = both_polling two_ready one_fd [] flushed_all refl refl

-- Descriptor 9 can be read, and nothing is said of 7.
abbrev readable_nine : Fds
readable_nine = λ _. record { fd = 9; events = 59; revents = 1 }
