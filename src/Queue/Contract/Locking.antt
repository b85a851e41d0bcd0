-- ===== src/Queue/Contract/Locking.antt =====
-- The mutex around the work: _lock and _unlock in every public method.
use tools_on_linux.Queue.Represents.{After-locked, After, IsValid}
use tools_on_linux.Memory.Chain.{Cells}
use tools_on_linux.Queue.Calls.{leave_reply, enter, leave}
use tools_on_linux.Prelude.{
  not, List, Bool-cases, ne→==_false, ◌≢◌, ◌==◌, ◌≡◌, if◌then◌else◌, Bool, ℕ, true, false, inl, inr,
  arith,
}
use tools_on_linux.Queue.State.{returned, Event, ok, M, unlock, lock, Queue, MutexResults}

pub IsValid-locked :
    (q : Queue) (cs : Cells) (b : Bool) → IsValid q cs → IsValid (record q { locked = b }) cs
IsValid-locked q cs b v = record {
  holds = record {
    chain = v.holds.chain;
    first = v.holds.first;
    last = v.holds.last;
    count = v.holds.count;
  };
  bounded = v.bounded;
  small = v.small;
  ordered = v.ordered;
}

-- What a caller gets: the result of the work, or the error where the unlock fails.
abbrev pub sealed : {A : Type 0} → MutexResults → A → A → A
sealed io failed result = if io.unlock_result == 0 then result else failed

-- The mutex is free afterwards, unless the unlock failed.
abbrev pub Unlocked : MutexResults → Queue → Type 0
Unlocked io r = r.locked ≡ not (io.unlock_result == 0)

module _ {A : Type 0} (io : MutexResults) where
  pub enter-runs :
      (failed : A) (body : M A) (q : Queue)
      → io.lock_result ≡ 0
      → enter io failed body q ≡ body (record q { locked = true })
  unfolding enter lock
  enter-runs failed body q e = rw e

  pub enter-fails :
      (failed : A) (body : M A) (q : Queue)
      → io.lock_result ≢ 0
      → enter io failed body q ≡ ok failed q
  unfolding enter lock
  enter-fails failed body q e = rw (ne→==_false io.lock_result 0 e)

  leave_runs :
      (failed result : A) (r : Queue)
      → leave io failed result r
        ≡ ok
            (sealed io failed result)
            (record r { locked = if io.unlock_result == 0 then false else r.locked })
  unfolding leave unlock
  leave_runs failed result r = elim (Bool-cases (io.unlock_result == 0)) [
    | inl e ↦ rw e
    | inr e ↦ rw e
  ]

  -- The end of a method whose work leaves the queue at `r`.
  pub leave-After :
      (failed result : A) (q : Queue) (cs : Cells) (xs : List ℕ) (evs : List Event) (r : Queue)
      → After (record q { locked = true }) cs xs evs r
      → r.locked ≡ true
      → (s : Queue) × (leave io failed result r ≡ ok (sealed io failed result) s)
        × After q cs xs evs s
        × Unlocked io s
  leave-After failed result q cs xs evs r a held = (
    record r { locked = if io.unlock_result == 0 then false else r.locked },
    leave_runs failed result r,
    After-locked q cs xs evs r true _ a,
    ground arith,
  )

  -- The same for the methods that may sleep, where the work has returned.
  pub leave_reply-After :
      (failed : A → A) (result : A) (q : Queue) (cs : Cells) (xs : List ℕ) (evs : List Event)
      (r : Queue)
      → After (record q { locked = true }) cs xs evs r
      → r.locked ≡ true
      → (s : Queue) × (leave_reply io failed (returned result) r
          ≡ ok (returned (sealed io (failed result) result)) s)
        × After q cs xs evs s
        × Unlocked io s
  unfolding leave_reply
  leave_reply-After failed result q cs xs evs r a held =
      let (s, runs, after, free) = leave-After (failed result) result q cs xs evs r a held in
      (s, rw runs, after, free)
