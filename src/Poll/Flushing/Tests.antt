-- ===== src/Poll/Flushing/Tests.antt =====
-- A wake-up that is left over, on a concrete object.
use tools_on_linux.Poll.State.{Poll, Fds}
use tools_on_linux.Poll.Control.{raise_wakeup, wake_event, moved}
use tools_on_linux.Poll.Table.{find_from}
use tools_on_linux.Poll.Wait.{wait, wait_step, Answer, polling, polled, leaving, finished}
use tools_on_linux.Poll.Woken.{Moves-no_lost_wakeup}
use tools_on_linux.Poll.Alert.{any_busy}
use tools_on_linux.Poll.Counting.{any_in_poll}
use tools_on_linux.Poll.Flushing.{
  World, world, Moves, Moves-stale_wakeup, here, later, stores, tests, raises, waits, calm, stored,
  Watches,
}
use tools_on_linux.Prelude.{◌⊎◌, ◌+◌, ◌≡◌, refl, true, false, none, some, [], ◌∷◌, arith}
use tools_on_linux.Prelude.Int.{ℤ, pos, negsuc, ◌<ℤ◌}

-- The control socket alone, watched for input.
abbrev entries : Fds
entries = λ _. record { fd = 5; events = 59; revents = 0 }

-- One thread is in poll(2).
abbrev one_waits : Poll
one_waits = record {
  control_read_fd = 5;
  control_write_fd = 6;
  fds = some entries;
  fds_max_cnt = 8;
  fds_cnt = 1;
  controllable = true;
  control_pending = 0;
  flushing = 0;
  waiting = 1;
  control_bytes = 0;
  errno = 0;
}

abbrev flushes : Poll
flushes = record one_waits { flushing = 1 }

abbrev woken : Poll
woken = record flushes { control_pending = 1; control_bytes = 1 }

abbrev one_ready : Answer
one_ready = record { count = pos 1; fds = some entries }

abbrev left : Poll
left = record woken { waiting = 0 }

-- setFlushing(true), the end of the wait that it wakes, and setFlushing(false).
abbrev left_over : World
left_over = world (record left { flushing = 0 }) (finished (negsuc 0) 16 ∷ []) (stored ∷ []) 1

woken_run :
    Moves (world one_waits (polling ∷ []) (calm ∷ []) 0) (world woken (polling ∷ []) (calm ∷ []) 1)
unfolding raise_wakeup wake_event
woken_run =
    later
      (later (later here (stores true one_waits (polling ∷ []) [] [] 0))
        (tests flushes (polling ∷ []) [] [] 0))
      (raises (moved ∷ []) none flushes woken (polling ∷ []) [] [] 0 true refl refl)

left_over_run : Moves (world one_waits (polling ∷ []) (calm ∷ []) 0) left_over
unfolding wait_step
left_over_run =
    later
      (later
        (later (later woken_run (waits one_ready woken [] [] polling (calm ∷ []) 1))
          (waits one_ready woken [] [] (polled (pos 1)) (calm ∷ []) 1))
        (waits one_ready woken [] [] (leaving (negsuc 0) 16) (calm ∷ []) 1))
      (stores false left (finished (negsuc 0) 16 ∷ []) [] [] 1)

Moves-no_lost_wakeup_example :
    (woken.waiting ≡ 1)
    × ((woken.flushing ≡ 0)
        ⊎ (any_busy (calm ∷ []) ≡ true)
        ⊎ (any_in_poll (polling ∷ []) ≡ false)
        ⊎ (woken.control_bytes ≡ 1))
unfolding woken_run
Moves-no_lost_wakeup_example =
    Moves-no_lost_wakeup one_waits (polling ∷ []) (calm ∷ [])
      (world woken (polling ∷ []) (calm ∷ []) 1) woken_run
      (record { bytes = refl; small = omega arith }) refl refl refl refl (omega arith) (omega arith)

left_over-Watches : Watches left_over.poll
unfolding find_from
left_over-Watches = (59, refl, refl)

Moves-stale_wakeup_example :
    (left_over.poll.control_pending ≡ 0 + 1)
    × (left_over.poll.control_bytes ≡ 1)
    × (t : ℤ) × (t ≡ negsuc 0)
    × (wait (λ t. one_ready) (negsuc 0) left_over.poll ≡ (left_over.poll, finished (pos 1) 0))
    × (pos 0 <ℤ pos 1)
Moves-stale_wakeup_example =
    Moves-stale_wakeup (λ t. one_ready) (negsuc 0) one_waits (polling ∷ []) (calm ∷ []) left_over
      (record { bytes = refl; small = omega arith }) left_over_run (omega arith) (omega arith)
      (λ t bytes watched. omega arith) left_over-Watches refl refl
