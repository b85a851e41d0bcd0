-- ===== src/Queue/Contract/Closes.antt =====
-- Queue::setAllowedNewData and the destructor.
use tools_on_linux.Prelude.Int.{ℤ}
use tools_on_linux.Queue.Flushing.{flush_elements-After}
use tools_on_linux.Memory.{null, Ptr}
use tools_on_linux.Queue.Calls.{
  announce, set_flag, ebusy, destroy_mutex, set_allowed_new_data, release,
}
use tools_on_linux.Queue.Represents.{IsValid}
use tools_on_linux.Memory.Chain.{contents, has, Cells}
use tools_on_linux.Prelude.{
  if_false, if_true, sym, append-nil, append_assoc, ◌==◌, Bool-cases, length, ap, if◌then◌else◌,
  ◌≡◌, Bool, List, ℕ, zero, suc, none, [], ◌∷◌, ◌++◌, refl, true, false, inl, inr, ◌∙◌,
}
use tools_on_linux.Queue.State.{
  q_err_lock, cond_put, cond_get, broadcast, destroyed, ok, unlock, q_ok, lock, Queue, MutexResults,
}

-- setAllowedNewData sets the flag; forbidding new data wakes every waiting reader and writer, and
-- allowing it wakes nobody. The lock and the unlock succeed.
pub set_allowed_new_data-runs :
    (io : MutexResults) (q : Queue) (allowed : Bool)
    → io.lock_result ≡ 0
    → io.unlock_result ≡ 0
    → set_allowed_new_data io allowed q
      ≡ ok q_ok (record q {
        allowed_new_data = allowed;
        locked = false;
        events =
            if allowed
            then q.events
            else (q.events ++ broadcast cond_get ∷ []) ++ broadcast cond_put ∷ [];
      })
unfolding set_allowed_new_data set_flag announce lock unlock
set_allowed_new_data-runs io q true locks unlocks = rw (locks, unlocks)
set_allowed_new_data-runs io q false locks unlocks = rw (locks, unlocks)

-- `n` times EBUSY, and then success.
abbrev pub busy_then_ok : ℕ → List ℕ
busy_then_ok zero = 0 ∷ []
busy_then_ok (suc n) = ebusy ∷ busy_then_ok n

destroy_mutex-runs : (n : ℕ) (q : Queue) → destroy_mutex (busy_then_ok n) q ≡ ok 0 q
unfolding destroy_mutex
destroy_mutex-runs zero q = refl
destroy_mutex-runs (suc n) q = destroy_mutex-runs n q

-- Whatever the calls return, only the state of the mutex changes.
lock_any :
    (io : MutexResults) (q : Queue)
    → (c : ℤ) × (b : Bool) × (lock io q ≡ ok c (record q { locked = b }))
unfolding lock
lock_any io q = elim (Bool-cases (io.lock_result == 0)) [
  | inl e ↦ (q_ok, true, rw e)
  | inr e ↦ (q_err_lock, q.locked, rw e)
]

unlock_any :
    (io : MutexResults) (q : Queue)
    → (c : ℤ) × (b : Bool) × (unlock io q ≡ ok c (record q { locked = b }))
unfolding unlock
unlock_any io q = elim (Bool-cases (io.unlock_result == 0)) [
  | inl e ↦ (q_ok, false, rw e)
  | inr e ↦ (q_err_lock, q.locked, rw e)
]

no_contents : (cs : Cells) → contents cs ≡ [] → cs ≡ []
no_contents [] e = refl
no_contents (c ∷ cs) e = cc

gone : (cs : Cells) → contents cs ≡ [] → (a : Ptr) → has a cs ≡ false
gone [] e a = refl
gone (c ∷ cs) e a = cc

-- The destructor ends once the mutex is no longer busy, and frees every element and nothing else. It wakes
-- all waiting readers and writers before it destroys the two conditions, and does nothing else to other
-- threads; new data is forbidden from then on.
-- The queue is valid, and the mutex works for the first step, which forbids new data.
pub release-runs :
    (closing io : MutexResults) (q : Queue) (cs : Cells) (n : ℕ)
    → IsValid q cs
    → closing.lock_result ≡ 0
    → closing.unlock_result ≡ 0
    → (r : Queue) × (release closing io (busy_then_ok n) q ≡ ok 0 r)
      × (r.allowed_new_data ≡ false)
      × (r.used_element_cnts ≡ 0)
      × (r.events
          ≡ q.events
            ++ broadcast cond_get
              ∷ broadcast cond_put
              ∷ destroyed cond_get
              ∷ destroyed cond_put
              ∷ [])
      × ((a : Ptr) → r.heap a ≡ (if has a cs then none else q.heap a))
unfolding release
release-runs closing io q cs n v locks unlocks =
    let (c, held, locking) = lock_any io closed in
    let (r, flushing, after, same) =
      flush_elements-After none (record closed { locked = held }) cs (closed_valid held) in
    let (d, left, unlocking) = unlock_any io (record r {
      used_first_element = null;
      used_last_element = null;
      events = (r.events ++ destroyed cond_get ∷ []) ++ destroyed cond_put ∷ [];
    }) in
    (
      record r {
        used_first_element = null;
        used_last_element = null;
        locked = left;
        events = (r.events ++ destroyed cond_get ∷ []) ++ destroyed cond_put ∷ [];
      },
      rw (set_allowed_new_data-runs closing q false locks unlocks, locking, flushing, unlocking)
          (destroy_mutex-runs n _),
      after.allowed,
      after.valid.holds.count ∙ ap length (no_contents after.cells after.is_spec),
      rw after.events (simp (append_assoc, append-nil)),
      λ a. elim (Bool-cases (has a cs)) [
        | inl inside ↦
            after.freed a (gone after.cells after.is_spec a) inside
            ∙ sym (if_true (has a cs) none (q.heap a) inside)
        | inr out ↦
            after.frame a (gone after.cells after.is_spec a) out
            ∙ sym (if_false (has a cs) none (q.heap a) out)
      ],
    )
  where
    closed : Queue
    closed = record q {
      allowed_new_data = false;
      locked = false;
      events = (q.events ++ broadcast cond_get ∷ []) ++ broadcast cond_put ∷ [];
    }

    closed_valid : (b : Bool) → IsValid (record closed { locked = b }) cs
    closed_valid b = record {
      holds = record {
        chain = v.holds.chain;
        first = v.holds.first;
        last = v.holds.last;
        count = v.holds.count;
      };
      bounded = v.bounded;
      small = v.small;
      ordered = v.ordered;
    }
