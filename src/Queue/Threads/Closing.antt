-- ===== src/Queue/Threads/Closing.antt =====
-- Closing a queue wakes every thread.
use tools_on_linux.Prelude.Int.{ℤ}
use tools_on_linux.Prelude.Outcome.{result_or, ok}
use tools_on_linux.Queue.Sorting.{before}
use tools_on_linux.Queue.Represents.{IsValid}
use tools_on_linux.Queue.Threads.Held.{run-resumed, nothing_yet, no_history, Reach-Held, Held}
use tools_on_linux.Memory.Chain.{contents, Cells}
use tools_on_linux.Queue.Threads.Refines.{perform-answer}
use tools_on_linux.Queue.Threads.Called.{
  run-Called, run-Announced, announced, allowed_again, Called, Announced,
}
use tools_on_linux.Queue.Threads.Answers.{empty_answer, answer}
use tools_on_linux.Queue.Threads.System.{
  request_of, pushes, pops, perform, peeks, is_asleep, flushes, counts, asks_empty, asks_allowed,
  Task, Delivers, CanAllocate, woken, wake_up, settled, running, asleep, announcing, Thread,
  Request,
}
use tools_on_linux.Queue.Threads.Steps.{
  after_resume, after_call, wake_by_itself, system, sets_flag, later, here, go_on, call, announces,
  Step, Reach, History, System,
}
use tools_on_linux.Queue.Threads.Census.{
  total-split, is_announcing, broadcasts-Effect, Delivers-Effect, sleepers, announcers, Signals,
  Effect,
}
use tools_on_linux.Queue.State.{
  Reply, signal, flushed, destroyed, cond_put, cond_get, broadcast, Queue, Event, Cond,
}
use tools_on_linux.Prelude.{
  Bool, ◌&&◌, ◌==◌, ℕ, ◌≡◌, List, [], ◌∷◌, true, false, ◌++◌, arith, ◌≤◌, ◌<◌, refl, ◌∙◌, sym,
  subst, ap, ◌⊎◌, inl, inr, map,
}

-- Nobody sleeps on a closed queue, unless a thread is about to broadcast.
abbrev pub Closed : System → Type 0
Closed s =
    s.queue.allowed_new_data ≡ false
    → ((sleepers cond_get s.threads ≡ 0) × (sleepers cond_put s.threads ≡ 0))
      ⊎ (0 < announcers s.threads)

-- A delivery puts nobody to sleep.
record Fewer (ts us : List Thread) : Type 0 where
  gets : sleepers cond_get us ≤ sleepers cond_get ts
  puts : sleepers cond_put us ≤ sleepers cond_put ts
  announcers_same : announcers us ≡ announcers ts

wake_up-Fewer : (c : Cond) (ts : List Thread) → Fewer ts (map (wake_up c) ts)
wake_up-Fewer c [] = record { gets = omega arith; puts = omega arith; announcers_same = refl }
wake_up-Fewer c (t ∷ ts) = one c t (wake_up-Fewer c ts)
  where
    one :
        (c : Cond) (t : Thread)
        → Fewer ts (map (wake_up c) ts)
        → Fewer (t ∷ ts) (wake_up c t ∷ map (wake_up c) ts)
    one c running f = omega (arith, f.gets, f.puts, f.announcers_same)
    one cond_get (asleep cond_put t) f = omega (arith, f.gets, f.puts, f.announcers_same)
    one cond_get (asleep cond_get t) f = omega (arith, f.gets, f.puts, f.announcers_same)
    one cond_put (asleep cond_put t) f = omega (arith, f.gets, f.puts, f.announcers_same)
    one cond_put (asleep cond_get t) f = omega (arith, f.gets, f.puts, f.announcers_same)
    one c (woken t) f = omega (arith, f.gets, f.puts, f.announcers_same)
    one c announcing f = omega (arith, f.gets, f.puts, f.announcers_same)

signal-Fewer : (c : Cond) (ts us : List Thread) → Signals c ts us → Fewer ts us
signal-Fewer c ts us (inl (none_, same)) =
    subst (Fewer ts) (sym same)
      (record { gets = omega arith; puts = omega arith; announcers_same = refl })
signal-Fewer cond_get ts us (inr m) =
    omega (arith, m.fewer, m.others cond_put refl, m.announcers_same)
signal-Fewer cond_put ts us (inr m) =
    omega (arith, m.fewer, m.others cond_get refl, m.announcers_same)

Effect-Fewer : (es : List Event) (ts us : List Thread) → Effect es ts us → Fewer ts us
Effect-Fewer [] ts us same =
    subst (Fewer ts) (sym same)
      (record { gets = omega arith; puts = omega arith; announcers_same = refl })
Effect-Fewer (flushed u d ∷ es) ts us e = Effect-Fewer es ts us e
Effect-Fewer (destroyed c ∷ es) ts us e = Effect-Fewer es ts us e
Effect-Fewer (signal c ∷ es) ts us (vs, signals, e) =
    let f = signal-Fewer c ts vs signals in
    let g = Effect-Fewer es vs us e in
    omega (arith, f.gets, f.puts, f.announcers_same, g.gets, g.puts, g.announcers_same)
Effect-Fewer (broadcast c ∷ es) ts us e =
    let f = wake_up-Fewer c ts in
    let g = Effect-Fewer es (map (wake_up c) ts) us e in
    omega (arith, f.gets, f.puts, f.announcers_same, g.gets, g.puts, g.announcers_same)

-- On a closed queue no call sleeps.
answer-settled :
    (req : Request) (q : Queue) (xs : List ℕ)
    → q.allowed_new_data ≡ false
    → settled req (answer req q xs).reply ≡ running
unfolding answer
answer-settled (pushes w new ele) q xs off = rw (off, closed w) refl
  where
    closed : (w : Bool) → (w && false && q.used_element_cnts == q.capability) ≡ false
    closed true = refl
    closed false = refl
answer-settled (pops w) q [] off = rw off (refused w)
  where
    refused : (w : Bool) → settled (pops w) (empty_answer w false).reply ≡ running
    refused true = refl
    refused false = refl
answer-settled (pops w) q (x ∷ xs) off = refl
answer-settled (peeks i) q xs off = refl
answer-settled (flushes fcb) q xs off = refl
answer-settled counts q xs off = refl
answer-settled asks_empty q xs off = refl
answer-settled asks_allowed q xs off = refl

Called-Closed :
    (req : Request) (q r : Queue) (cs : Cells) (reply : Reply (ℤ × ℕ)) (es : List Event)
    (u : Thread) (pre post us : List Thread) (g h : History)
    → is_announcing u ≡ 0
    → Called req q cs reply r es
    → Closed (system q (pre ++ u ∷ post) h)
    → Delivers es (pre ++ settled req reply ∷ post) us
    → Closed (system r us g)
Called-Closed req q r cs reply es u pre post us g h quiet c closed del off =
    let was_off = sym c.after.allowed ∙ off in
    let goes : settled req reply ≡ running =
      ap (settled req) c.reply_is ∙ answer-settled req q (contents cs) was_off in
    let f =
      Effect-Fewer es (pre ++ running ∷ post) us
        (subst (λ t. Effect es (pre ++ t ∷ post) us) goes (Delivers-Effect del)) in
    let gets = total-split (is_asleep cond_get) pre post in
    let puts = total-split (is_asleep cond_put) pre post in
    let told = total-split is_announcing pre post in
    elim (closed was_off) [
      | inl (none_get, none_put) ↦ inl (
        omega (arith, f.gets, gets u, gets running, none_get),
        omega (arith, f.puts, puts u, puts running, none_put),
      )
      | inr some_ ↦ inr (omega (arith, f.announcers_same, told u, told running, quiet, some_))
    ]

woken-Closed :
    (pre post : List Thread) (c : Cond) (t : Task) (q : Queue) (h : History)
    → Closed (system q (pre ++ asleep c t ∷ post) h)
    → Closed (system q (pre ++ woken t ∷ post) h)
woken-Closed pre post c t q h closed off =
    let gets = total-split (is_asleep cond_get) pre post in
    let puts = total-split (is_asleep cond_put) pre post in
    let told = total-split is_announcing pre post in
    elim (closed off) [
      | inl (none_get, none_put) ↦ inl (
        omega (arith, gets (asleep c t), gets (woken t), none_get),
        omega (arith, puts (asleep c t), puts (woken t), none_put),
      )
      | inr some_ ↦ inr (omega (arith, told (asleep c t), told (woken t), some_))
    ]

Announced-Closed :
    (q r : Queue) (es : List Event) (pre post us : List Thread) (h : History)
    → Announced q r es
    → Effect es (pre ++ running ∷ post) us
    → Closed (system r us h)
Announced-Closed q r es pre post us h (allowed_again on) e off = cc
Announced-Closed q r es pre post us h (announced was_off) e off =
    let none_ = broadcasts-Effect (pre ++ running ∷ post) us e in inl (none_.0, none_.1)

Step-Closed : (old : List ℕ) {s t : System} → Step s t → Held old s → Closed s → Closed t
Step-Closed old (call pre post us req q r reply es h unlocked fresh runs sends del) held closed =
    Called-Closed req q r held.cells reply es running pre post us (after_call req q reply h) h refl
      (run-Called req q held.cells reply r es held.valid fresh runs sends) closed del
Step-Closed old (go_on pre post us t new q r reply es h unlocked fresh runs sends del) held closed =
    Called-Closed (request_of t new) q r held.cells reply es (woken t) pre post us
      (after_resume t new q reply h) h refl
      (run-resumed t new q held.cells reply r es held.valid fresh runs sends) closed del
Step-Closed old (wake_by_itself pre post c t q h) held closed = woken-Closed pre post c t q h closed
Step-Closed old (sets_flag pre post allowed q r h unlocked runs) held closed =
    λ off. inr (omega (arith, total-split is_announcing pre post announcing))
Step-Closed old (announces pre post us c q r es h runs sends del) held closed =
    Announced-Closed q r es pre post us h (run-Announced c q r es runs sends) (Delivers-Effect del)

Reach-Closed : (old : List ℕ) {s t : System} → Reach s t → Held old s → Closed s → Closed t
Reach-Closed old here held closed = closed
Reach-Closed old (later before step) held closed =
    Step-Closed old step (Reach-Held old before held) (Reach-Closed old before held closed)

-- Closing a queue lets no thread sleep on: in every state that any number of threads reach when none of
-- them sleeps at first, if new data is not allowed and no thread has yet to broadcast, then no thread
-- sleeps, and a call that is made then, or that a woken thread goes on with, does not sleep either.
-- The mutex works, and calloc gives NULL or a free address.
pub Reach-closed :
    (q : Queue) (cs : Cells) (ts : List Thread) (s : System) (req : Request) (reply : Reply (ℤ × ℕ))
    (r : Queue)
    → IsValid q cs
    → sleepers cond_get ts ≡ 0
    → sleepers cond_put ts ≡ 0
    → Reach (system q ts no_history) s
    → s.queue.allowed_new_data ≡ false
    → announcers s.threads ≡ 0
    → CanAllocate req s.queue
    → perform req s.queue ≡ ok reply r
    → (sleepers cond_get s.threads ≡ 0)
      × (sleepers cond_put s.threads ≡ 0)
      × (settled req reply ≡ running)
Reach-closed q cs ts s req reply r v no_reader no_writer reach off told fresh runs =
    let held = Reach-Held (contents cs) reach (nothing_yet q cs ts v) in
    let closed =
      Reach-Closed (contents cs) reach (nothing_yet q cs ts v) (λ _. inl (no_reader, no_writer))
        off in
    let none_ : (sleepers cond_get s.threads ≡ 0) × (sleepers cond_put s.threads ≡ 0) =
      elim closed [ inl none_ ↦ none_ | inr some_ ↦ absurd (omega (arith, some_, told)) ] in
    let (r', runs', after, free) = perform-answer req s.queue held.cells held.valid fresh in
    (
      none_.0,
      none_.1,
      ap (settled req) (ap (result_or reply) (sym runs ∙ runs'))
          ∙ answer-settled req s.queue (contents held.cells) off,
    )
