-- ===== src/Thread/Waiting.antt =====
-- The started thread beside any number of callers of requestExit, requestExitAndWait and join.
use tools_on_linux.Prelude.{
  ℕ, ◌+◌, ◌≡◌, Bool, true, false, List, [], ◌∷◌, ◌++◌, ◌==◌, map, if◌then◌else◌,
}
use tools_on_linux.Thread.State.{
  Thread, Reply, returned, waits, request_exit, request_exit_and_wait, exit_wait, join, join_wait,
}
use tools_on_linux.Thread.Loop.{
  Stage, starting, first_round, next_round, testing, looping, leaving, exiting, ended, loop_step,
}

-- The two methods that wait.
pub data Ask : Type 0 where
  exits joins : Ask

-- A caller is outside, asleep on mCondition, or woken but without the lock yet.
pub data Caller : Type 0 where
  idle : Caller
  asleep : Ask → Caller
  awake : Ask → Caller

abbrev pub ask : Ask → ℕ → Thread → Reply × Thread
ask exits self t = request_exit_and_wait self t
ask joins self t = join self t

abbrev pub ask_again : Ask → Thread → Reply × Thread
ask_again exits t = exit_wait t
ask_again joins t = join_wait t

abbrev pub replied : Ask → Reply → Caller
replied a (returned code) = idle
replied a waits = asleep a

abbrev pub wake : Caller → Caller
wake (asleep a) = awake a
wake idle = idle
wake (awake a) = awake a

pub record World : Type 0 where
  pub object : Thread
  pub stage : Stage
  pub callers : List Caller

abbrev pub world : Thread → Stage → List Caller → World
world t at cs = record { object = t; stage = at; callers = cs }

-- A step of the started thread; a broadcast wakes all callers.
unfoldable pub works : Bool → World → World
works result w =
    let next = loop_step result w.object w.stage in
    world next.0 next.1
      (if next.0.broadcasts == w.object.broadcasts then w.callers else map wake w.callers)

-- The steps of the started thread and of the callers. `self` is the calling thread.
pub data Step : World → World → Type 0 where
  thread_works : (result : Bool) (w : World) → Step w (works result w)
  requests_exit :
      (t : Thread) (at : Stage) (cs : List Caller)
      → Step (world t at cs) (world (request_exit t) at cs)
  asks :
      (a : Ask) (self : ℕ) (t u : Thread) (reply : Reply) (at : Stage) (pre post : List Caller)
      → ask a self t ≡ (reply, u)
      → Step (world t at (pre ++ idle ∷ post)) (world u at (pre ++ replied a reply ∷ post))
  asks_again :
      (a : Ask) (t u : Thread) (reply : Reply) (at : Stage) (pre post : List Caller)
      → ask_again a t ≡ (reply, u)
      → Step (world t at (pre ++ awake a ∷ post)) (world u at (pre ++ replied a reply ∷ post))
  wakes_by_itself :
      (a : Ask) (t : Thread) (at : Stage) (pre post : List Caller)
      → Step (world t at (pre ++ asleep a ∷ post)) (world t at (pre ++ awake a ∷ post))

pub data Reach (first : World) : World → Type 0 where
  here : Reach first first
  later : {v w : World} → Reach first v → Step v w → Reach first w

abbrev pub is_asleep : Caller → ℕ
is_asleep idle = 0
is_asleep (asleep a) = 1
is_asleep (awake a) = 0

abbrev pub sleepers : List Caller → ℕ
sleepers [] = 0
sleepers (c ∷ cs) = is_asleep c + sleepers cs

-- The stages in which the thread counts as running.
abbrev pub in_loop : Stage → Bool
in_loop starting = false
in_loop first_round = true
in_loop next_round = true
in_loop (testing r) = true
in_loop looping = true
in_loop leaving = false
in_loop exiting = false
in_loop ended = false
