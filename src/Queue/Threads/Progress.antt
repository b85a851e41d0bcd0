-- ===== src/Queue/Threads/Progress.antt =====
-- A thread that is outside, or woken, can always go on.
use tools_on_linux.Queue.Threads.Refines.{resume-perform, perform-answer}
use tools_on_linux.Queue.Threads.Answers.{answer}
use tools_on_linux.Queue.Threads.Held.{
  resumed_CanAllocate, nothing_yet, no_history, Reach-Held, run-resumed, Held,
}
use tools_on_linux.Memory.{Ptr}
use tools_on_linux.Queue.Threads.Called.{
  run-Called, run-set_flag, run-Announced, Announced, announced, allowed_again,
}
use tools_on_linux.Queue.Threads.Steps.{
  wake_by_itself, sets_flag, announces, here, later, system, go_on, call, after_resume, after_call,
  System, Step, Reach, History,
}
use tools_on_linux.Queue.State.{
  signal, flushed, destroyed, broadcast, cond_get, cond_put, Queue, Event, Cond,
}
use tools_on_linux.Memory.Chain.{contents, Cells}
use tools_on_linux.Queue.Threads.System.{
  woken, wakes_one, wakes_none, wakes_all, wake_up, total, skips, removes, settled, running,
  request_of, is_asleep, done, asleep, announcing, Thread, Task, Request, Delivers, CanAllocate,
}
use tools_on_linux.Queue.Pushing.{Allocates}
use tools_on_linux.Queue.Represents.{IsValid, After}
use tools_on_linux.Prelude.{
  ℕ, ◌≡◌, List, [], ◌∷◌, true, false, ◌++◌, arith, refl, ◌∙◌, sym, subst, ap, ◌⊎◌, inl, inr, map,
}

-- Whom a signal can wake.
abbrev Sleeper : Cond → List Thread → Type 0
Sleeper c ts =
    (total (is_asleep c) ts ≡ 0)
    ⊎ ((pre : List Thread) × (post : List Thread) × (t : Task) × (pre ++ asleep c t ∷ post ≡ ts))

behind_another :
    (c : Cond) (u : Thread) (ts : List Thread)
    → is_asleep c u ≡ 0
    → Sleeper c ts
    → Sleeper c (u ∷ ts)
behind_another c u ts awake (inl none_) = inl (omega (arith, none_, awake))
behind_another c u ts awake (inr (pre, post, t, same)) = inr (u ∷ pre, post, t, ap (◌∷◌ u) same)

sleeper : (c : Cond) (ts : List Thread) → Sleeper c ts
sleeper c [] = inl refl
sleeper c (running ∷ ts) = behind_another c running ts refl (sleeper c ts)
sleeper c (woken t ∷ ts) = behind_another c (woken t) ts refl (sleeper c ts)
sleeper c (announcing ∷ ts) = behind_another c announcing ts refl (sleeper c ts)
sleeper cond_get (asleep cond_get t ∷ ts) = inr ([], ts, t, refl)
sleeper cond_put (asleep cond_put t ∷ ts) = inr ([], ts, t, refl)
sleeper cond_get (asleep cond_put t ∷ ts) =
    behind_another cond_get (asleep cond_put t) ts refl (sleeper cond_get ts)
sleeper cond_put (asleep cond_get t ∷ ts) =
    behind_another cond_put (asleep cond_get t) ts refl (sleeper cond_put ts)

-- Every list of events can be delivered.
pub delivered : (es : List Event) (ts : List Thread) → (us : List Thread) × Delivers es ts us
delivered [] ts = (ts, done ts)
delivered (flushed u d ∷ es) ts = let (us, del) = delivered es ts in (us, skips u d es del)
delivered (destroyed c ∷ es) ts = let (us, del) = delivered es ts in (us, removes c es del)
delivered (broadcast c ∷ es) ts =
    let (us, del) = delivered es (map (wake_up c) ts) in (us, wakes_all c es del)
delivered (signal c ∷ es) ts = elim (sleeper c ts) [
  | inl none_ ↦ let (us, del) = delivered es ts in (us, wakes_none c es none_ del)
  | inr (pre, post, t, same) ↦
      let (us, del) = delivered es (pre ++ woken t ∷ post) in
      (us, subst (λ vs. Delivers (signal c ∷ es) vs us) same (wakes_one c es pre post t del))
]

-- A thread outside makes any call.
pub call-Step :
    (req : Request) (q : Queue) (cs : Cells) (pre post us : List Thread) (h : History)
    → IsValid q cs
    → q.locked ≡ false
    → CanAllocate req q
    → let a = answer req q (contents cs) in
      Delivers a.events (pre ++ settled req a.reply ∷ post) us
      → (r : Queue) × After q cs a.contents a.events r
        × (r.locked ≡ false)
        × Step (system q (pre ++ running ∷ post) h) (system r us (after_call req q a.reply h))
call-Step req q cs pre post us h v unlocked fresh del =
    let (r, runs, after, free) = perform-answer req q cs v fresh in
    (r, after, free, call pre post us req q r _ _ h unlocked fresh runs after.events del)

-- A woken thread goes on, and does what a new call would.
pub go_on-Step :
    (t : Task) (new : Ptr) (q : Queue) (cs : Cells) (pre post us : List Thread) (h : History)
    → IsValid q cs
    → q.locked ≡ false
    → Allocates q new
    → let a = answer (request_of t new) q (contents cs) in
      Delivers a.events (pre ++ settled (request_of t new) a.reply ∷ post) us
      → (r : Queue) × After q cs a.contents a.events r
        × (r.locked ≡ false)
        × Step (system q (pre ++ woken t ∷ post) h) (system r us (after_resume t new q a.reply h))
go_on-Step t new q cs pre post us h v unlocked fresh del =
    let (r, runs, after, free) =
      perform-answer (request_of t new) q cs v (resumed_CanAllocate t new q fresh) in
    (
      r,
      after,
      free,
      go_on pre post us t new q r _ _ h unlocked fresh (resume-perform t new q ∙ runs) after.events
          del,
    )

Announced-unlocked :
    {q r : Queue} {es : List Event} → Announced q r es → q.locked ≡ false → r.locked ≡ false
Announced-unlocked (allowed_again on) unlocked = unlocked
Announced-unlocked (announced off) unlocked = unlocked

-- Every step leaves the mutex free.
Step-unlocked :
    (old : List ℕ) {s t : System}
    → Step s t
    → Held old s
    → s.queue.locked ≡ false
    → t.queue.locked ≡ false
Step-unlocked old (call pre post us req q r reply es h unlocked fresh runs sends del) held free =
    (run-Called req q held.cells reply r es held.valid fresh runs sends).unlocked
Step-unlocked old (go_on pre post us t new q r reply es h unlocked fresh runs sends del) held free =
    (run-resumed t new q held.cells reply r es held.valid fresh runs sends).unlocked
Step-unlocked old (wake_by_itself pre post c t q h) held free = free
Step-unlocked old (sets_flag pre post allowed q r h unlocked runs) held free =
    subst (λ s. s.locked ≡ false) (run-set_flag allowed true q r runs) refl
Step-unlocked old (announces pre post us c q r es h runs sends del) held free =
    Announced-unlocked (run-Announced c q r es runs sends) free

Reach-unlocked :
    (old : List ℕ) {s t : System}
    → Reach s t
    → Held old s
    → s.queue.locked ≡ false
    → t.queue.locked ≡ false
Reach-unlocked old here held free = free
Reach-unlocked old (later before step) held free =
    Step-unlocked old step (Reach-Held old before held) (Reach-unlocked old before held free)

-- In every state that the threads reach, the mutex is free, and a woken thread takes it and goes on,
-- whatever calloc gives it: it does what a new call would do on the contents of a valid object, its signal
-- finds a thread or none, and it leaves the mutex free for the next. The mutex is free at first.
pub Reach-goes_on :
    (q : Queue) (cs : Cells) (ts : List Thread) (s : System) (t : Task) (new : Ptr)
    (pre post : List Thread)
    → IsValid q cs
    → q.locked ≡ false
    → Reach (system q ts no_history) s
    → s.threads ≡ pre ++ woken t ∷ post
    → Allocates s.queue new
    → (ds : Cells) × (r : Queue) × (us : List Thread) × let a =
          answer (request_of t new) s.queue (contents ds) in
        IsValid s.queue ds
        × (s.queue.locked ≡ false)
        × Delivers a.events (pre ++ settled (request_of t new) a.reply ∷ post) us
        × After s.queue ds a.contents a.events r
        × (r.locked ≡ false)
        × Step s (system r us (after_resume t new s.queue a.reply s.history))
Reach-goes_on q cs ts s t new pre post v free_first reach woken_there fresh =
    let held = Reach-Held (contents cs) reach (nothing_yet q cs ts v) in
    let unlocked = Reach-unlocked (contents cs) reach (nothing_yet q cs ts v) free_first in
    let a = answer (request_of t new) s.queue (contents held.cells) in
    let (us, del) = delivered a.events (pre ++ settled (request_of t new) a.reply ∷ post) in
    let (r, after, free, step) =
      go_on-Step t new s.queue held.cells pre post us s.history held.valid unlocked fresh del in
    (
      held.cells,
      r,
      us,
      (
        held.valid,
        unlocked,
        del,
        after,
        free,
        subst
            (λ vs.
              Step (system s.queue vs s.history)
                (system r us (after_resume t new s.queue a.reply s.history)))
            (sym woken_there) step,
      ),
    )
