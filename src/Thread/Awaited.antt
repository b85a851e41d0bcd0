-- ===== src/Thread/Awaited.antt =====
-- No caller of requestExitAndWait or join is left asleep.
use tools_on_linux.Prelude.{
  ℕ, ◌+◌, ◌≡◌, Bool, true, false, List, [], ◌∷◌, ◌++◌, ◌==◌, map, if◌then◌else◌, not, ◌||◌, ◌⊎◌,
  arith, refl, sym, ◌∙◌, subst, Bool-cases, inl, inr, if_true, if_false,
}
use tools_on_linux.Thread.State.{
  Thread, Reply, returned, request_exit, request_exit_and_wait, exit_wait, join, join_wait,
}
use tools_on_linux.Thread.Loop.{
  Stage, starting, first_round, next_round, testing, looping, leaving, exiting, ended, loop_step,
  test_exit,
}
use tools_on_linux.Thread.Life.{stopped}
use tools_on_linux.Thread.Waiting.{
  Ask, exits, joins, Caller, idle, asleep, awake, ask, ask_again, replied, wake, World, world,
  works, Step, thread_works, requests_exit, asks, asks_again, wakes_by_itself, Reach, here, later,
  is_asleep, sleepers, in_loop,
}

-- mRunning says where the thread stands, and callers sleep only while it is set.
pub record Watched (w : World) : Type 0 where
  pub running_is : w.object.running ≡ in_loop w.stage
  pub none_asleep : w.object.running ≡ false → sleepers w.callers ≡ 0

sleepers-split :
    (pre post : List Caller) (c : Caller)
    → sleepers (pre ++ c ∷ post) ≡ sleepers pre + sleepers post + is_asleep c
sleepers-split [] post c = omega arith
sleepers-split (d ∷ pre) post c = omega (arith, sleepers-split pre post c)

sleepers-map : (cs : List Caller) → sleepers (map wake cs) ≡ 0
sleepers-map [] = refl
sleepers-map (idle ∷ cs) = omega (arith, sleepers-map cs)
sleepers-map (asleep a ∷ cs) = omega (arith, sleepers-map cs)
sleepers-map (awake a ∷ cs) = omega (arith, sleepers-map cs)

-- A call leaves mRunning, and sleeps only while it is set.
abbrev Leaves : Ask → Thread → Reply × Thread → Type 0
Leaves a t r = (r.1.running ≡ t.running) × (t.running ≡ false → is_asleep (replied a r.0) ≡ 0)

again_at :
    (a : Ask) (t : Thread) (b : Bool)
    → let u = record t { running = b } in Leaves a u (ask_again a u)
unfolding exit_wait join_wait
again_at exits t true = (refl, λ e. cc)
again_at exits t false = (refl, λ e. refl)
again_at joins t true = (refl, λ e. cc)
again_at joins t false = (refl, λ e. refl)

ask-Leaves : (a : Ask) (self : ℕ) (t : Thread) → Leaves a t (ask a self t)
unfolding request_exit_and_wait join
ask-Leaves exits self t = elim (Bool-cases (t.thread == self)) [
  | inl own ↦ rw own (refl, λ e. refl)
  | inr other ↦ rw other (again_at exits (record t { exit_pending = true }) t.running)
]
ask-Leaves joins self t = elim (Bool-cases (t.thread == self)) [
  | inl own ↦ rw own (refl, λ e. refl)
  | inr other ↦ rw other (again_at joins t t.running)
]

called-Watched :
    (a : Ask) (t : Thread) (at : Stage) (pre post : List Caller) (c : Caller) (r : Reply × Thread)
    → Leaves a t r
    → Watched (world t at (pre ++ c ∷ post))
    → Watched (world r.1 at (pre ++ replied a r.0 ∷ post))
called-Watched a t at pre post c r (same, quiet) h = record {
  running_is = same ∙ h.running_is;
  none_asleep = λ off.
      let was_off = sym same ∙ off in
      omega (
        arith,
        sleepers-split pre post c,
        sleepers-split pre post (replied a r.0),
        quiet was_off,
        h.none_asleep was_off,
      );
}

-- A step that sends no broadcast leaves the callers.
still :
    (t u : Thread) (next : Stage) (cs : List Caller)
    → u.broadcasts ≡ t.broadcasts
    → u.running ≡ in_loop next
    → (u.running ≡ false → sleepers cs ≡ 0)
    → Watched (world u next (if u.broadcasts == t.broadcasts then cs else map wake cs))
still t u next cs same running_is none_asleep =
    subst (λ ds. Watched (world u next ds))
      (sym (if_true (u.broadcasts == t.broadcasts) cs _ (ground (arith, same))))
      (record { running_is = running_is; none_asleep = none_asleep })

-- The locked block: where it leaves the loop it wakes everybody.
tests :
    (b : Bool) (t : Thread) (cs : List Caller)
    → t.running ≡ true
    → let next : Thread × Stage = (if b then (stopped t, leaving) else (t, looping)) in
      Watched (world next.0 next.1 (if next.0.broadcasts == t.broadcasts then cs else map wake cs))
tests true t cs on =
    subst (λ ds. Watched (world (stopped t) leaving ds))
      (sym (if_false (t.broadcasts + 1 == t.broadcasts) cs _ (ground arith)))
      (record { running_is = refl; none_asleep = λ off. sleepers-map cs })
tests false t cs on = still t t looping cs refl on (λ off. cc)

works-Watched :
    (result : Bool) (t : Thread) (at : Stage) (cs : List Caller)
    → Watched (world t at cs)
    → Watched (works result (world t at cs))
unfolding works loop_step test_exit
works-Watched result t starting cs h =
    still t (record t { running = true }) first_round cs refl refl (λ off. cc)
works-Watched result t first_round cs h =
    still t t (testing true) cs refl h.running_is h.none_asleep
works-Watched result t next_round cs h =
    still t t (testing result) cs refl h.running_is h.none_asleep
works-Watched result t (testing r) cs h = tests (not r || t.exit_pending) t cs h.running_is
works-Watched result t looping cs h =
    subst
      (λ b. Watched (
        world t (if b then next_round else leaving)
          (if t.broadcasts == t.broadcasts then cs else map wake cs)))
      (sym h.running_is) (still t t next_round cs refl h.running_is h.none_asleep)
works-Watched result t leaving cs h =
    still t (record t { running = false }) exiting cs refl refl (λ off. h.none_asleep h.running_is)
works-Watched result t exiting cs h = still t t ended cs refl h.running_is h.none_asleep
works-Watched result t ended cs h = still t t ended cs refl h.running_is h.none_asleep

Step-Watched : {v w : World} → Step v w → Watched v → Watched w
unfolding request_exit
Step-Watched (thread_works result w) h = works-Watched result w.object w.stage w.callers h
Step-Watched (requests_exit t at cs) h = record {
  running_is = h.running_is;
  none_asleep = h.none_asleep;
}
Step-Watched (asks a self t u reply at pre post runs) h =
    called-Watched a t at pre post idle (reply, u) (subst (Leaves a t) runs (ask-Leaves a self t)) h
Step-Watched (asks_again a t u reply at pre post runs) h =
    called-Watched a t at pre post (awake a) (reply, u)
      (subst (Leaves a t) runs (again_at a t t.running)) h
Step-Watched (wakes_by_itself a t at pre post) h = record {
  running_is = h.running_is;
  none_asleep = λ off. omega (
    arith,
    sleepers-split pre post (asleep a),
    sleepers-split pre post (awake a),
    h.none_asleep off,
  );
}

Reach-Watched : {v w : World} → Reach v w → Watched v → Watched w
Reach-Watched here h = h
Reach-Watched (later earlier step) h = Step-Watched step (Reach-Watched earlier h)

both_return :
    (t : Thread)
    → t.running ≡ false
    → ((ask_again exits t).0 ≡ returned t.status) × ((ask_again joins t).0 ≡ returned t.status)
unfolding exit_wait join_wait
both_return t off =
    subst
      (λ b.
        ((ask_again exits (record t { running = b })).0 ≡ returned t.status)
        × ((ask_again joins (record t { running = b })).0 ≡ returned t.status))
      (sym off) (stops t)
  where
    stops :
        (t : Thread)
        → let u = record t { running = false } in
          ((ask_again exits u).0 ≡ returned t.status) × ((ask_again joins u).0 ≡ returned t.status)
    stops t = (refl, refl)

-- No caller is left asleep: beside one started thread of an object that does not run yet, any number of
-- callers of requestExit, requestExitAndWait and join, in any interleaving and with wakeups that nobody
-- caused, see mRunning set exactly while the thread is in its loop; and when it is not, none of them
-- sleeps, and the woken ones return with the status.
pub Reach-all_woken :
    (t : Thread) (cs : List Caller) (w : World)
    → t.running ≡ false
    → sleepers cs ≡ 0
    → Reach (world t starting cs) w
    → (w.object.running ≡ in_loop w.stage)
      × ((in_loop w.stage ≡ true)
          ⊎ ((sleepers w.callers ≡ 0)
              × ((ask_again exits w.object).0 ≡ returned w.object.status)
              × ((ask_again joins w.object).0 ≡ returned w.object.status)))
Reach-all_woken t cs w idle_yet none_yet reach =
    let h = Reach-Watched reach (record { running_is = idle_yet; none_asleep = λ _. none_yet }) in
    (
      h.running_is,
      elim (Bool-cases (in_loop w.stage)) [
        | inl inside ↦ inl inside
        | inr outside ↦
            let off = h.running_is ∙ outside in
            inr (h.none_asleep off, (both_return w.object off).0, (both_return w.object off).1)
      ],
    )
