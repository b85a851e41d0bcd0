-- ===== src/Poll/Waiting.antt =====
-- Waiting threads and setFlushing(true): mWaiting counts the threads, and no wake-up is lost.
use tools_on_linux.Poll.Counting.{
  wait_step-keeps, wait_step-in_poll, wait_step-counted, still_in_poll, length-replaced,
  inside_bound, inside-append, inside, in_poll-counted, counted, any_in_poll,
}
use tools_on_linux.Prelude.Outcome.{state_or, ok}
use tools_on_linux.Prelude.{not, ◌==◌}
use tools_on_linux.Prelude.Outcome.{state_or, ok}
use tools_on_linux.Poll.Control.{Io, raise_wakeup, must_wake}
use tools_on_linux.Poll.Wait.{
  system, Step, Reach, waiter_step, store_flag, test_waiting, raise, here, later,
}
use tools_on_linux.Prelude.{subst, sym, ap, ◌∙◌, if◌then◌else◌, none, some, Option}
use tools_on_linux.Poll.Wait.{before_store, after_store, raising, flushed_all}
use tools_on_linux.Poll.State.{Fds, Poll}
use tools_on_linux.Poll.Wakeup.{raise_wakeup-Leaves, verdict, IsSynced}
use tools_on_linux.Poll.Wait.{wait_step, System, Stage, Setter, Answer}
use tools_on_linux.Prelude.{
  ℕ, ◌+◌, ◌^◌, ◌<◌, Bool, true, false, List, ◌∷◌, ◌++◌, ◌||◌, ◌≡◌, refl, arith, inl, inr,
  Bool-cases, length,
}

-- The flag, and the wake-up of those who are in poll(2), by how far the setter has come.
abbrev pub Flushing : Setter → Poll → List Stage → Type 0
Flushing before_store p ws = p.control_pending + 1 < 2 ^ 31
Flushing after_store p ws = (p.flushing ≡ 1) × (p.control_pending + 1 < 2 ^ 31)
Flushing raising p ws = (p.flushing ≡ 1) × (p.control_pending + 1 < 2 ^ 31)
Flushing flushed_all p ws = (p.flushing ≡ 1) × (any_in_poll ws ≡ true → p.control_bytes ≡ 1)

pub record Inv (s : System) : Type 0 where
  pub counts : s.poll.waiting ≡ inside s.waiters
  pub few : length s.waiters < 2 ^ 31
  pub synced : IsSynced s.poll
  pub controllable : s.poll.controllable ≡ true
  pub flushing : Flushing s.setter s.poll s.waiters

Flushing-wait_step :
    (st : Setter) (a : Answer) (p : Poll) (pre post : List Stage) (now : Stage)
    → Flushing st p (pre ++ now ∷ post)
    → Flushing st (wait_step a p now).0 (pre ++ (wait_step a p now).1 ∷ post)
Flushing-wait_step st a p pre post now h =
    subst (λ q. Flushing st q (pre ++ (wait_step a p now).1 ∷ post)) (sym (wait_step-keeps a p now))
      (moved_on st h)
  where
    moved_on :
        (st : Setter)
        → Flushing st p (pre ++ now ∷ post)
        → Flushing st
            (record p { waiting = (wait_step a p now).0.waiting; fds = (wait_step a p now).0.fds })
            (pre ++ (wait_step a p now).1 ∷ post)
    moved_on before_store h = h
    moved_on after_store h = h
    moved_on raising h = h
    moved_on flushed_all h = (
      h.0,
      λ e. h.1 (still_in_poll pre post now (wait_step a p now).1 (wait_step-in_poll a p now h.0) e),
    )

IsSynced-kept :
    (p : Poll) (w : ℕ) (f : Option Fds) → IsSynced p → IsSynced (record p { waiting = w; fds = f })
IsSynced-kept p w f s = record { bytes = s.bytes; small = s.small }

pub inside-split :
    (pre post : List Stage) (now : Stage)
    → inside (pre ++ now ∷ post) ≡ inside pre + inside post + counted now
inside-split pre post now = omega (arith, inside-append pre (now ∷ post))

waiter_step-Inv :
    (a : Answer) (p : Poll) (pre post : List Stage) (now : Stage) (st : Setter)
    → Inv (system p (pre ++ now ∷ post) st)
    → Inv (system (wait_step a p now).0 (pre ++ (wait_step a p now).1 ∷ post) st)
waiter_step-Inv a p pre post now st v = record {
  counts =
      wait_step-counted a p now (inside pre + inside post) (v.counts ∙ inside-split pre post now)
        (omega (arith, inside_bound (pre ++ now ∷ post), inside-split pre post now, v.few))
      ∙ sym (inside-split pre post (wait_step a p now).1);
  few = omega (arith, v.few, length-replaced pre post now (wait_step a p now).1);
  synced = subst (λ q. IsSynced q) (sym (wait_step-keeps a p now)) (IsSynced-kept p _ _ v.synced);
  controllable = ap (λ q. q.controllable) (wait_step-keeps a p now) ∙ v.controllable;
  flushing = Flushing-wait_step st a p pre post now v.flushing;
}

pub must_wake-true :
    (p : Poll) (n : ℕ)
    → p.flushing ≡ 1
    → p.controllable ≡ true
    → p.waiting ≡ n
    → 0 < n
    → n < 2 ^ 31
    → must_wake p ≡ true
must_wake-true p n set_ on counts some_ few = ground arith

absurd : {A : Type 0} {b : Bool} → b ≡ true → b ≡ false → A
absurd yes_ no_ = cc

-- The tests: nobody is in poll(2) where mWaiting is 0.
test_waiting-Flushing :
    (p : Poll) (ws : List Stage)
    → Inv (system p ws after_store)
    → Flushing (if must_wake p then raising else flushed_all) p ws
test_waiting-Flushing p ws v = elim (Bool-cases (must_wake p)) [
  | inl wakes ↦ rw wakes v.flushing
  | inr idle ↦ rw idle (
    v.flushing.0,
    λ e.
        absurd
          (must_wake-true p (inside ws) v.flushing.0 v.controllable v.counts (in_poll-counted ws e)
            (omega (arith, inside_bound ws, v.few)))
          idle,
  )
]

one_byte :
    (n m b : ℕ)
    → m ≡ (if not (n == 0) || true then n + 1 else n)
    → b ≡ (if m == 0 then 0 else 1)
    → b ≡ 1
one_byte n m b pending bytes = ground arith

raise-Inv :
    (io : List Io) (p r : Poll) (ws : List Stage) (b : Bool)
    → verdict io ≡ some none
    → raise_wakeup io p ≡ ok b r
    → Inv (system p ws raising)
    → Inv (system r ws flushed_all)
raise-Inv io p r ws b works runs v =
    let (r', runs', synced, pending, same) =
      raise_wakeup-Leaves io p v.synced v.flushing.1 none works in
    let e : r ≡ r' = ap (state_or p) (sym runs ∙ runs') in
    subst (λ q. Inv (system q ws flushed_all)) (sym e)
      (record {
        counts = ap (λ q. q.waiting) same ∙ v.counts;
        few = v.few;
        synced = synced;
        controllable = ap (λ q. q.controllable) same ∙ v.controllable;
        flushing = (
          ap (λ q. q.flushing) same ∙ v.flushing.0,
          λ _. one_byte p.control_pending r'.control_pending r'.control_bytes pending synced.bytes,
        );
      })

Step-Inv : {s t : System} → Step s t → Inv s → Inv t
Step-Inv (waiter_step a p pre post now st) v = waiter_step-Inv a p pre post now st v
Step-Inv (store_flag p ws) v = record {
  counts = v.counts;
  few = v.few;
  synced = record { bytes = v.synced.bytes; small = v.synced.small };
  controllable = v.controllable;
  flushing = (refl, v.flushing);
}
Step-Inv (test_waiting p ws) v = record {
  counts = v.counts;
  few = v.few;
  synced = v.synced;
  controllable = v.controllable;
  flushing = test_waiting-Flushing p ws v;
}
Step-Inv (raise io p r ws b works runs) v = raise-Inv io p r ws b works runs v

Reach-Inv : {s t : System} → Inv s → Reach s t → Inv t
Reach-Inv start here = start
Reach-Inv start (later earlier st) = Step-Inv st (Reach-Inv start earlier)

-- A waiter in poll(2) finds a byte in the control socket once setFlushing(true) has come to its end:
-- no wake-up is lost, however the threads are interleaved. mFlushing stays set, and mWaiting is the
-- number of threads that have counted themselves and are still in wait. At the start the object is
-- controllable, fewer than 2^31 threads wait, all counted, and write on the control socket works.
pub no_lost_wakeup :
    (p : Poll) (ws : List Stage) (s : System)
    → Inv (system p ws before_store)
    → Reach (system p ws before_store) s
    → s.setter ≡ flushed_all
    → (s.poll.flushing ≡ 1)
      × (s.poll.waiting ≡ inside s.waiters)
      × (any_in_poll s.waiters ≡ true → s.poll.control_bytes ≡ 1)
no_lost_wakeup p ws s start run ended =
    let v = Reach-Inv start run in
    let f = subst (λ st. Flushing st s.poll s.waiters) ended v.flushing in (f.0, v.counts, f.1)
