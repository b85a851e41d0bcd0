-- ===== src/Poll/Alert.antt =====
-- While mFlushing is set nobody is in poll(2) unless a wake-up is there or on its way.
use tools_on_linux.Poll.State.{Poll}
use tools_on_linux.Poll.Control.{raise_wakeup, must_wake, Io}
use tools_on_linux.Poll.Wakeup.{verdict, raise_wakeup-Leaves, went_through}
use tools_on_linux.Poll.Wait.{Stage, Answer, wait_step}
use tools_on_linux.Poll.Counting.{
  wait_step-keeps, wait_step-in_poll, wait_step-counted, still_in_poll, inside_bound, inside,
  in_poll-counted, any_in_poll,
}
use tools_on_linux.Poll.Waiting.{inside-split, must_wake-true}
use tools_on_linux.Poll.Flushing.{Flusher, calm, stored, raising, World, world, Piled}
use tools_on_linux.Prelude.{
  ℕ, ◌+◌, ◌^◌, ◌<◌, Bool, true, false, not, ◌||◌, List, [], ◌∷◌, ◌++◌, ◌==◌, if◌then◌else◌, ◌≡◌,
  ◌⊎◌, refl, Option, some, sym, ap, ◌∙◌, subst, inl, inr, Bool-cases, arith, length,
}
use tools_on_linux.Prelude.Outcome.{ok, state_or, result_or}

-- On the way to wake whoever is in poll(2).
abbrev pub busy : Flusher → Bool
busy calm = false
busy stored = true
busy raising = true

abbrev pub any_busy : List Flusher → Bool
any_busy [] = false
any_busy (f ∷ fs) = busy f || any_busy fs

-- The flag is 0 or 1, and while it is set nobody is in poll(2) unless a wake-up is there or on its way.
pub record Alert (w : World) : Type 0 where
  pub counts : w.poll.waiting ≡ inside w.waiters
  pub controllable : w.poll.controllable ≡ true
  pub is_flag : (w.poll.flushing ≡ 0) ⊎ (w.poll.flushing ≡ 1)
  pub alert :
      (w.poll.flushing == 0
        || not (any_in_poll w.waiters)
        || any_busy w.flushers
        || not (w.poll.control_bytes == 0))
      ≡ true

pub any_busy-split :
    (pre post : List Flusher) (f : Flusher)
    → any_busy (pre ++ f ∷ post) ≡ (busy f || any_busy (pre ++ post))
any_busy-split [] post f = refl
any_busy-split (g ∷ pre) post f = ground (arith, any_busy-split pre post f)

-- A step of a waiter leaves the flag, the socket and the setting, and brings nobody into poll(2) while
-- the flag is set.
pub waits-Alert :
    (a : Answer) (p : Poll) (pre post : List Stage) (now : Stage) (fs : List Flusher) (n : ℕ)
    → length (pre ++ now ∷ post) < 2 ^ 31
    → Alert (world p (pre ++ now ∷ post) fs n)
    → Alert (world (wait_step a p now).0 (pre ++ (wait_step a p now).1 ∷ post) fs n)
waits-Alert a p pre post now fs n few v =
    let same = wait_step-keeps a p now in
    let same_flag = ap (λ q. q.flushing) same in
    let same_bytes = ap (λ q. q.control_bytes) same in
    record {
      counts =
          wait_step-counted a p now (inside pre + inside post)
            (v.counts ∙ inside-split pre post now)
            (omega (arith, inside_bound (pre ++ now ∷ post), inside-split pre post now, few))
          ∙ sym (inside-split pre post (wait_step a p now).1);
      controllable = ap (λ q. q.controllable) same ∙ v.controllable;
      is_flag = elim v.is_flag [ inl off ↦ inl (same_flag ∙ off) | inr on ↦ inr (same_flag ∙ on) ];
      alert = elim v.is_flag [
        | inl off ↦ ground (arith, same_flag, off)
        | inr on ↦ ground (
          arith,
          same_flag,
          same_bytes,
          v.alert,
          still_in_poll pre post now (wait_step a p now).1 (wait_step-in_poll a p now on),
        )
      ];
    }

-- The tests of setFlushing see whoever is in poll(2).
still_watchful :
    (p : Poll) (ws : List Stage) (pre post : List Flusher) (n : ℕ)
    → length ws < 2 ^ 31
    → Alert (world p ws (pre ++ stored ∷ post) n)
    → (p.flushing == 0
        || not (any_in_poll ws)
        || any_busy (pre ++ (if must_wake p then raising else calm) ∷ post)
        || not (p.control_bytes == 0))
      ≡ true
still_watchful p ws pre post n few v = elim (Bool-cases (must_wake p)) [
  | inl wakes ↦ rw wakes (ground (arith, any_busy-split pre post raising))
  | inr idle ↦ rw idle (elim (Bool-cases (any_in_poll ws)) [
    | inr nobody ↦ rw nobody (ground arith)
    | inl somebody ↦ elim v.is_flag [
      | inl off ↦ ground (arith, off)
      | inr on ↦ ground (
        arith,
        idle,
        must_wake-true p (inside ws) on v.controllable v.counts (in_poll-counted ws somebody)
            (omega (arith, inside_bound ws, few)),
      )
    ]
  ])
]

pub tests-Alert :
    (p : Poll) (ws : List Stage) (pre post : List Flusher) (n : ℕ)
    → length ws < 2 ^ 31
    → Alert (world p ws (pre ++ stored ∷ post) n)
    → Alert (world p ws (pre ++ (if must_wake p then raising else calm) ∷ post) n)
tests-Alert p ws pre post n few v = record {
  counts = v.counts;
  controllable = v.controllable;
  is_flag = v.is_flag;
  alert = still_watchful p ws pre post n few v;
}

-- A successful raiseWakeup leaves a byte in the control socket and the rest as it was.
pub raises-Alert :
    (old : ℕ) (io : List Io) (v : Option ℕ) (p r : Poll) (ws : List Stage) (fs gs : List Flusher)
    (n m : ℕ)
    → verdict io ≡ some v
    → raise_wakeup io p ≡ ok true r
    → old + n + 1 < 2 ^ 31
    → Piled old (world p ws fs n)
    → Alert (world p ws fs n)
    → Alert (world r ws gs m)
raises-Alert old io v p r ws fs gs n m ends runs room k e =
    let (r', runs', synced, pending, same) =
      raise_wakeup-Leaves io p k.synced (omega (arith, k.pending, room)) v ends in
    let done = not (p.control_pending == 0) || went_through v in
    let at : r' ≡ r = ap (state_or p) (sym runs' ∙ runs) in
    let well : done ≡ true = ap (result_or true) (sym runs' ∙ runs) in
    subst (λ q. Alert (world q ws gs m)) at
      (record {
        counts = ap (λ q. q.waiting) same ∙ e.counts;
        controllable = ap (λ q. q.controllable) same ∙ e.controllable;
        is_flag = elim e.is_flag [
          | inl off ↦ inl (ap (λ q. q.flushing) same ∙ off)
          | inr on ↦ inr (ap (λ q. q.flushing) same ∙ on)
        ];
        alert = there r'.flushing (any_in_poll ws) (any_busy gs) r'.control_bytes (
            one_byte done p.control_pending r'.control_pending r'.control_bytes well pending
              synced.bytes);
      })
  where
    one_byte :
        (d : Bool) (before after bytes : ℕ)
        → d ≡ true
        → after ≡ (if d then before + 1 else before)
        → bytes ≡ (if after == 0 then 0 else 1)
        → bytes ≡ 1
    one_byte true before after bytes well pending sync = ground arith
    one_byte false before after bytes well pending sync = cc

    there :
        (flushing : ℕ) (b c : Bool) (bytes : ℕ)
        → bytes ≡ 1
        → (flushing == 0 || not b || c || not (bytes == 0)) ≡ true
    there flushing b c bytes one = ground arith
