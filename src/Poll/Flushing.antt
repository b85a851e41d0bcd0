-- ===== src/Poll/Flushing.antt =====
-- Any number of threads that call wait and setFlushing, true or false, as often as they like.
mod Tests
use tools_on_linux.Poll.State.{Poll, pollin}
use tools_on_linux.Poll.Control.{raise_wakeup, must_wake, Io, flag}
use tools_on_linux.Poll.Wakeup.{verdict, IsSynced, raise_wakeup-Leaves, went_through}
use tools_on_linux.Poll.Wait.{Stage, Answer, outside, finished, wait_step, wait, poll_timeout}
use tools_on_linux.Poll.Counting.{wait_step-keeps}
use tools_on_linux.Poll.Alone.{wait-calm, IsTimeout, poll_timeout-IsTimeout}
use tools_on_linux.Poll.Watching.{events_of}
use tools_on_linux.Prelude.{
  ℕ, suc, ◌+◌, ◌^◌, ◌<◌, ◌≤◌, Bool, true, false, not, ◌||◌, Option, some, List, ◌∷◌, ◌++◌, ◌==◌,
  if◌then◌else◌, ◌≡◌, refl, sym, ap, ◌∙◌, subst, arith, if_true,
}
use tools_on_linux.Prelude.Int.{ℤ, pos, ◌<ℤ◌}
use Prim.Native.Nat.{bit_and}
use tools_on_linux.Prelude.Outcome.{ok, state_or, result_or}

-- A thread that calls setFlushing: outside, before the tests, and before raiseWakeup.
pub data Flusher : Type 0 where
  calm stored raising : Flusher

-- `raised` counts the calls of raiseWakeup that were successful.
pub record World : Type 0 where
  pub poll : Poll
  pub waiters : List Stage
  pub flushers : List Flusher
  pub raised : ℕ

abbrev pub world : Poll → List Stage → List Flusher → ℕ → World
world p ws fs n = record { poll = p; waiters = ws; flushers = fs; raised = n }

pub data Move : World → World → Type 0 where
  calls_wait :
      (p : Poll) (ws : List Stage) (fs : List Flusher) (n : ℕ)
      → Move (world p ws fs n) (world p (outside ∷ ws) fs n)
  waits :
      (a : Answer) (p : Poll) (pre post : List Stage) (now : Stage) (fs : List Flusher) (n : ℕ)
      → Move
          (world p (pre ++ now ∷ post) fs n)
          (world (wait_step a p now).0 (pre ++ (wait_step a p now).1 ∷ post) fs n)
  stores :
      (flushing : Bool) (p : Poll) (ws : List Stage) (pre post : List Flusher) (n : ℕ)
      → Move
          (world p ws (pre ++ calm ∷ post) n)
          (world (record p { flushing = flag flushing }) ws (pre ++ stored ∷ post) n)
  tests :
      (p : Poll) (ws : List Stage) (pre post : List Flusher) (n : ℕ)
      → Move
          (world p ws (pre ++ stored ∷ post) n)
          (world p ws (pre ++ (if must_wake p then raising else calm) ∷ post) n)
  raises :
      (io : List Io) (v : Option ℕ) (p r : Poll) (ws : List Stage) (pre post : List Flusher) (n : ℕ)
      (b : Bool)
      → verdict io ≡ some v
      → raise_wakeup io p ≡ ok b r
      → Move
          (world p ws (pre ++ raising ∷ post) n)
          (world r ws (pre ++ calm ∷ post) (if b then suc n else n))

pub data Moves (start : World) : World → Type 0 where
  here : Moves start start
  later : {v w : World} → Moves start v → Move v w → Moves start w

-- The control socket and its count, after `raised` wake-ups on top of `old`.
pub record Piled (old : ℕ) (w : World) : Type 0 where
  pub synced : IsSynced w.poll
  pub pending : w.poll.control_pending ≡ old + w.raised

pub Move-raised : {v w : World} → Move v w → v.raised ≤ w.raised
Move-raised (calls_wait p ws fs n) = omega arith
Move-raised (waits a p pre post now fs n) = omega arith
Move-raised (stores flushing p ws pre post n) = omega arith
Move-raised (tests p ws pre post n) = omega arith
Move-raised (raises io v p r ws pre post n true ends runs) = omega arith
Move-raised (raises io v p r ws pre post n false ends runs) = omega arith

-- A poll with the same socket and count.
same-Piled :
    (old : ℕ) (p r : Poll) (ws us : List Stage) (fs gs : List Flusher) (n : ℕ)
    → r.control_pending ≡ p.control_pending
    → r.control_bytes ≡ p.control_bytes
    → Piled old (world p ws fs n)
    → Piled old (world r us gs n)
same-Piled old p r ws us fs gs n same same_bytes k = record {
  synced = record {
    bytes = same_bytes ∙ k.synced.bytes ∙ ap (λ m. if m == 0 then 0 else 1) (sym same);
    small = omega (arith, same, k.synced.small);
  };
  pending = same ∙ k.pending;
}

raises-Piled :
    (old : ℕ) (io : List Io) (v : Option ℕ) (p r : Poll) (ws : List Stage) (fs gs : List Flusher)
    (n : ℕ) (b : Bool)
    → verdict io ≡ some v
    → raise_wakeup io p ≡ ok b r
    → old + n + 1 < 2 ^ 31
    → Piled old (world p ws fs n)
    → Piled old (world r ws gs (if b then suc n else n))
raises-Piled old io v p r ws fs gs n b ends runs room k =
    let (r', runs', synced, pending, same) =
      raise_wakeup-Leaves io p k.synced (omega (arith, k.pending)) v ends in
    let at : r' ≡ r = ap (state_or p) (sym runs' ∙ runs) in
    let done = not (p.control_pending == 0) || went_through v in
    let with : done ≡ b = ap (result_or b) (sym runs' ∙ runs) in
    subst (λ c. Piled old (world r ws gs (if c then suc n else n))) with
      (subst (λ q. Piled old (world q ws gs (if done then suc n else n))) at
        (record { synced = synced; pending = pending ∙ counts done }))
  where
    counts :
        (d : Bool)
        → (if d then p.control_pending + 1 else p.control_pending) ≡ old + (if d then suc n else n)
    counts true = omega (arith, k.pending)
    counts false = k.pending

Move-Piled :
    (old : ℕ) {v w : World} → Move v w → old + w.raised + 1 < 2 ^ 31 → Piled old v → Piled old w
Move-Piled old (calls_wait p ws fs n) room k = same-Piled old p p _ _ fs fs n refl refl k
Move-Piled old (waits a p pre post now fs n) room k =
    let same = wait_step-keeps a p now in
    same-Piled old p (wait_step a p now).0 _ _ fs fs n (ap (λ q. q.control_pending) same)
      (ap (λ q. q.control_bytes) same) k
Move-Piled old (stores flushing p ws pre post n) room k =
    same-Piled old p (record p { flushing = flag flushing }) ws ws _ _ n refl refl k
Move-Piled old (tests p ws pre post n) room k = same-Piled old p p ws ws _ _ n refl refl k
Move-Piled old (raises io v p r ws pre post n b ends runs) room k =
    raises-Piled old io v p r ws _ _ n b ends runs
      (omega (arith, Move-raised (raises io v p r ws pre post n b ends runs), room)) k

pub Moves-Piled :
    (old : ℕ) {v w : World} → Moves v w → old + w.raised + 1 < 2 ^ 31 → Piled old v → Piled old w
Moves-Piled old here room k = k
Moves-Piled old (later {v} before move) room k =
    Move-Piled old move room (Moves-Piled old before (omega (arith, Move-raised move, room)) k)

-- The control socket is watched for input.
abbrev pub Watches : Poll → Type 0
Watches p = (e : ℕ) × (events_of p p.control_read_fd ≡ some e) × (bit_and e pollin ≡ pollin)

-- What poll(2) documents: with a byte to read on an entry watched for input it gives a positive count,
-- whatever the timeout.
abbrev pub Finds : Poll → (ℤ → Answer) → Type 0
Finds p poll = (t : ℤ) → 0 < p.control_bytes → Watches p → pos 0 <ℤ (poll t).count

-- A wake-up of setFlushing stays in the control socket: nothing that the threads call takes it out
-- again. However any number of calls of wait and setFlushing are interleaved, mControlPending counts all
-- wake-ups so far; and once there was one, a wait that comes while no other wait runs and mFlushing is
-- not set gives a positive count, the one of poll(2) for the byte, for any timeout, and leaves the byte
-- there. The calls of write come to an end, and the count stays within an int.
pub Moves-stale_wakeup :
    (poll : ℤ → Answer) (timeout_ns : ℤ) (p : Poll) (ws : List Stage) (fs : List Flusher)
    (w : World)
    → IsSynced p
    → Moves (world p ws fs 0) w
    → p.control_pending + w.raised + 1 < 2 ^ 31
    → 0 < w.raised
    → Finds w.poll poll
    → Watches w.poll
    → w.poll.waiting ≡ 0
    → w.poll.flushing ≡ 0
    → (w.poll.control_pending ≡ p.control_pending + w.raised)
      × (w.poll.control_bytes ≡ 1)
      × (t : ℤ) × IsTimeout timeout_ns t
      × (wait poll timeout_ns w.poll
          ≡ (record w.poll { fds = (poll t).fds }, finished (poll t).count 0))
      × (pos 0 <ℤ (poll t).count)
Moves-stale_wakeup poll timeout_ns p ws fs w sync moves room some_ finds watched nobody calm_ =
    let k =
      Moves-Piled p.control_pending moves room (record { synced = sync; pending = omega arith }) in
    let byte : w.poll.control_bytes ≡ 1 = ground (arith, k.synced.bytes, k.pending, some_) in
    (
      k.pending,
      byte,
      poll_timeout timeout_ns,
      poll_timeout-IsTimeout timeout_ns,
      wait-calm poll timeout_ns w.poll nobody calm_,
      finds (poll_timeout timeout_ns) (omega (arith, byte)) watched,
    )
