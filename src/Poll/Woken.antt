-- ===== src/Poll/Woken.antt =====
-- No wake-up is lost among any number of calls of wait and setFlushing.
use tools_on_linux.Poll.State.{Poll}
use tools_on_linux.Poll.Control.{flag}
use tools_on_linux.Poll.Wakeup.{IsSynced}
use tools_on_linux.Poll.Wait.{Stage, wait_step}
use tools_on_linux.Poll.Counting.{length-replaced, inside, any_in_poll}
use tools_on_linux.Poll.Flushing.{
  Flusher, stored, World, world, Move, calls_wait, waits, stores, tests, raises, Moves, here, later,
  Piled, Moves-Piled, Move-raised,
}
use tools_on_linux.Prelude.{
  ℕ, ◌+◌, ◌^◌, ◌<◌, ◌≤◌, Bool, true, false, ◌&&◌, List, ◌≡◌, ◌⊎◌, refl, inl, inr, arith, length,
}
use tools_on_linux.Poll.Alert.{
  any_busy, Alert, any_busy-split, waits-Alert, tests-Alert, raises-Alert,
}

-- Whether each call of raiseWakeup was successful.
abbrev pub raised_well : {v w : World} → Move v w → Bool
raised_well (calls_wait p ws fs n) = true
raised_well (waits a p pre post now fs n) = true
raised_well (stores flushing p ws pre post n) = true
raised_well (tests p ws pre post n) = true
raised_well (raises io v p r ws pre post n b ends runs) = b

abbrev pub all_raised : {v w : World} → Moves v w → Bool
all_raised here = true
all_raised (later before move) = raised_well move && all_raised before

Move-length : {v w : World} → Move v w → length v.waiters ≤ length w.waiters
Move-length (calls_wait p ws fs n) = omega arith
Move-length (waits a p pre post now fs n) =
    omega (arith, length-replaced pre post now (wait_step a p now).1)
Move-length (stores flushing p ws pre post n) = omega arith
Move-length (tests p ws pre post n) = omega arith
Move-length (raises io v p r ws pre post n b ends runs) = omega arith

Move-Alert :
    (old : ℕ) {v w : World} (move : Move v w)
    → raised_well move ≡ true
    → length w.waiters < 2 ^ 31
    → old + w.raised + 1 < 2 ^ 31
    → Piled old v
    → Alert v
    → Alert w
Move-Alert old (calls_wait p ws fs n) well few room k e = record {
  counts = omega (arith, e.counts);
  controllable = e.controllable;
  is_flag = e.is_flag;
  alert = e.alert;
}
Move-Alert old (waits a p pre post now fs n) well few room k e =
    waits-Alert a p pre post now fs n
      (omega (arith, few, length-replaced pre post now (wait_step a p now).1)) e
Move-Alert old (stores flushing p ws pre post n) well few room k e = record {
  counts = e.counts;
  controllable = e.controllable;
  is_flag = a_flag flushing;
  alert = ground (arith, any_busy-split pre post stored);
}
  where
    a_flag : (b : Bool) → (flag b ≡ 0) ⊎ (flag b ≡ 1)
    a_flag true = inr refl
    a_flag false = inl refl
Move-Alert old (tests p ws pre post n) well few room k e = tests-Alert p ws pre post n few e
Move-Alert old (raises io v p r ws pre post n true ends runs) well few room k e =
    raises-Alert old io v p r ws _ _ n _ ends runs (omega (arith, room)) k e
Move-Alert old (raises io v p r ws pre post n false ends runs) well few room k e = cc

both_true : (a b : Bool) → (a && b) ≡ true → (a ≡ true) × (b ≡ true)
both_true true true well = (refl, refl)
both_true true false well = cc
both_true false b well = cc

Moves-Alert :
    (old : ℕ) {v w : World} (moves : Moves v w)
    → all_raised moves ≡ true
    → length w.waiters < 2 ^ 31
    → old + w.raised + 1 < 2 ^ 31
    → Piled old v
    → Alert v
    → Alert w
Moves-Alert old here well few room k e = e
Moves-Alert old (later {v} before move) well few room k e =
    let (now, earlier) = both_true (raised_well move) (all_raised before) well in
    let few' : length v.waiters < 2 ^ 31 = omega (arith, Move-length move, few) in
    let room' : old + v.raised + 1 < 2 ^ 31 = omega (arith, Move-raised move, room) in
    Move-Alert old move now few room (Moves-Piled old before room' k)
      (Moves-Alert old before earlier few' room' k e)

-- A waiter in poll(2) finds a byte in the control socket whenever mFlushing is set and no setFlushing is
-- on its way: no wake-up is lost, however any number of calls of wait and setFlushing, true or false,
-- are interleaved; and mWaiting is the number of threads that have counted themselves and are still in
-- wait. At the start the object is controllable and does not flush, and those in wait are counted; fewer
-- than 2^31 threads come, the count of wake-ups stays within an int, and raiseWakeup is successful.
pub Moves-no_lost_wakeup :
    (p : Poll) (ws : List Stage) (fs : List Flusher) (w : World) (moves : Moves (world p ws fs 0) w)
    → IsSynced p
    → p.controllable ≡ true
    → p.flushing ≡ 0
    → p.waiting ≡ inside ws
    → all_raised moves ≡ true
    → length w.waiters < 2 ^ 31
    → p.control_pending + w.raised + 1 < 2 ^ 31
    → (w.poll.waiting ≡ inside w.waiters)
      × ((w.poll.flushing ≡ 0)
          ⊎ (any_busy w.flushers ≡ true)
          ⊎ (any_in_poll w.waiters ≡ false)
          ⊎ (w.poll.control_bytes ≡ 1))
Moves-no_lost_wakeup p ws fs w moves sync controls off counted_ well few room =
    let piled : Piled p.control_pending (world p ws fs 0) = record {
      synced = sync;
      pending = omega arith;
    } in
    let k = Moves-Piled p.control_pending moves room piled in
    let e = Moves-Alert p.control_pending moves well few room piled (record {
      counts = counted_;
      controllable = controls;
      is_flag = inl off;
      alert = ground (arith, off);
    }) in
    (e.counts, ground (arith, e.alert, k.synced.bytes))
