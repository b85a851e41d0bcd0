-- ===== src/Queue/Threads/Called.antt =====
-- What a step of a thread has to be: the run of a call is determined, so its reply, events and object
-- are those of the abstract queue.
use mathlib.Core.List.{append_cancel_left}
use tools_on_linux.Prelude.Int.{ℤ}
use tools_on_linux.Queue.Threads.Refines.{perform-answer}
use tools_on_linux.Prelude.Outcome.{state_or, result_or, ok, pure, ◌>>◌}
use tools_on_linux.Queue.Threads.Answers.{answer}
use tools_on_linux.Queue.State.{
  Reply, Queue, Event, emit, M, q_ok, broadcast, cond_get, cond_put, lock, unlock,
}
use tools_on_linux.Queue.Calls.{set_flag, announce}
use tools_on_linux.Memory.Chain.{contents, Cells}
use tools_on_linux.Queue.Threads.System.{working, perform, Request, CanAllocate}
use tools_on_linux.Queue.Represents.{IsValid, After}
use tools_on_linux.Prelude.{
  Bool, true, false, [], ◌∷◌, if_true, if_false, if◌then◌else◌, Bool-cases, inl, inr, append-nil,
  append_assoc, refl, ℕ, ◌≡◌, List, ◌++◌, ap, ◌∙◌, sym, subst,
}

-- A run of the call in a valid queue, as the abstract queue has it.
pub record Called (req : Request) (q : Queue) (cs : Cells) (reply : Reply (ℤ × ℕ)) (r : Queue)
    (es : List Event) : Type 0 where
  pub after : After q cs (answer req q (contents cs)).contents (answer req q (contents cs)).events r
  pub unlocked : r.locked ≡ false
  pub reply_is : reply ≡ (answer req q (contents cs)).reply
  pub events_are : es ≡ (answer req q (contents cs)).events

pub run-Called :
    (req : Request) (q : Queue) (cs : Cells) (reply : Reply (ℤ × ℕ)) (r : Queue) (es : List Event)
    → IsValid q cs
    → CanAllocate req q
    → perform req q ≡ ok reply r
    → r.events ≡ q.events ++ es
    → Called req q cs reply r es
run-Called req q cs reply r es v fresh runs sends =
    let a = answer req q (contents cs) in
    let (r', runs', after, free) = perform-answer req q cs v fresh in
    let same : r' ≡ r = ap (state_or q) (sym runs' ∙ runs) in
    let after' : After q cs a.contents a.events r =
      subst (λ s. After q cs a.contents a.events s) same after in
    record {
      after = after';
      unlocked = ap (λ s. s.locked) (sym same) ∙ free;
      reply_is = ap (result_or reply) (sym runs ∙ runs');
      events_are = append_cancel_left q.events es a.events (sym sends ∙ after'.events);
    }

-- The first part of setAllowedNewData.
pub run-set_flag :
    (allowed b : Bool) (q r : Queue)
    → set_flag working allowed q ≡ ok b r
    → record q { allowed_new_data = allowed; locked = false } ≡ r
unfolding set_flag lock unlock
run-set_flag allowed b q r runs = ap (state_or q) runs

-- The second part: both broadcasts, unless new data is allowed by then.
pub data Announced (q : Queue) : Queue → List Event → Type 0 where
  allowed_again : q.allowed_new_data ≡ true → Announced q q []
  announced :
      q.allowed_new_data ≡ false
      → Announced q
          (record q { events = q.events ++ broadcast cond_get ∷ broadcast cond_put ∷ [] })
          (broadcast cond_get ∷ broadcast cond_put ∷ [])

abbrev told : Queue → Queue
told q = record q { events = q.events ++ broadcast cond_get ∷ broadcast cond_put ∷ [] }

abbrev told_or_not : Bool → M ℤ
told_or_not b =
    if b then pure q_ok else (do emit (broadcast cond_get); emit (broadcast cond_put); pure q_ok)

told_or_not-runs :
    (b : Bool) (q : Queue) → told_or_not b q ≡ (if b then ok q_ok q else ok q_ok (told q))
told_or_not-runs true q = refl
told_or_not-runs false q =
    ap (λ evs. ok q_ok (record q { events = evs }))
      (append_assoc q.events (broadcast cond_get ∷ []) (broadcast cond_put ∷ []))

pub run-Announced :
    (c : ℤ) (q r : Queue) (es : List Event)
    → announce q ≡ ok c r
    → r.events ≡ q.events ++ es
    → Announced q r es
unfolding announce
run-Announced c q r es runs sends =
    let by : (s : Queue) (fs : List Event)
        → announce q ≡ ok q_ok s
        → s.events ≡ q.events ++ fs
        → Announced q s fs
        → Announced q r es =
      λ s fs is_run sent done.
        let same : s ≡ r = ap (state_or q) (sym is_run ∙ runs) in
        let sames : fs ≡ es =
          append_cancel_left q.events fs es (sym sent ∙ ap (λ t. t.events) same ∙ sends) in
        subst (λ t. Announced q t es) same (subst (λ gs. Announced q s gs) sames done) in
    elim (Bool-cases q.allowed_new_data) [
      | inl on ↦
          by q [] (told_or_not-runs q.allowed_new_data q ∙ if_true _ _ _ on)
            (sym (append-nil q.events)) (allowed_again on)
      | inr off ↦
          by (told q) (broadcast cond_get ∷ broadcast cond_put ∷ [])
            (told_or_not-runs q.allowed_new_data q ∙ if_false _ _ _ off) refl (announced off)
    ]
