-- ===== src/Mutex.antt =====
-- Mutex.h: a mutex, and the scope that holds it. A method gives the error number of pthread negated.
use tools_on_linux.Prelude.{
  ℕ, ◌≡◌, Bool, true, false, Option, none, some, ◌==◌, if◌then◌else◌, ◌⊎◌, inl, inr, refl, ◌≢◌,
  arith, zero, suc,
}
use tools_on_linux.Prelude.Int.{ℤ, pos, negsuc, negated, ◌<ℤ◌}
use tools_on_linux.Pthread.{Pthread, MutexAttr, mutexattr_init}
mod Tests

-- Mutex::SHARED
abbrev pub shared_mutex : ℕ
shared_mutex = 1

-- The attributes of a new mutex; without any, pthread_mutex_init takes the initial ones. The name is
-- not used.
unfoldable pub new_mutex : Option ℕ → MutexAttr
new_mutex none = mutexattr_init
new_mutex (some type) =
    if type == shared_mutex then record mutexattr_init { process_shared = true } else mutexattr_init

module _ (p : Pthread) where
  open p use {
    State, holds, mutex_lock, mutex_trylock, mutex_unlock, mutex_destroy, lock_holds, trylock_holds,
    trylock_fails, unlock_frees,
  }

  unfoldable pub lock : State → ℤ × State
  lock s = let (e, s') = mutex_lock s in (negated e, s')

  unfoldable pub unlock : State → State
  unlock s = (mutex_unlock s).1

  unfoldable pub try_lock : State → ℤ × State
  try_lock s = let (e, s') = mutex_trylock s in (negated e, s')

  -- Autolock around the rest of its scope, on whatever path that is left.
  -- The destructor.
  unfoldable pub delete_mutex : State → State
  delete_mutex s = (mutex_destroy s).1

  unfoldable pub autolock : {A : Type 0} → (State → A × State) → State → A × State
  unfolding lock unlock
  autolock body s = let (e, s') = lock s in let (a, s'') = body s' in (a, unlock s'')

  -- A scope with an Autolock holds the mutex while its body runs, and frees it at its end, whatever the
  -- body gives and however it leaves the scope: waits on a condition in it included, since they give the
  -- mutex back. pthread_mutex_lock is successful; Autolock does not look at its result.
  pub autolock-holds :
      {A : Type 0} (body : State → A × State) (s : State)
      → (mutex_lock s).0 ≡ 0
      → ((t : State) → holds t ≡ true → holds (body t).1 ≡ true)
      → (t : State) × (holds t ≡ true)
        × ((autolock body s).0 ≡ (body t).0)
        × (holds (autolock body s).1 ≡ false)
  unfolding autolock
  autolock-holds body s locked keeps =
      let held = lock_holds s locked in
      ((lock s).1, held, refl, unlock_frees (body (lock s).1).1 (keeps (lock s).1 held))

  -- tryLock gives 0 where the caller has the mutex now, and a negative code where nothing changed.
  pub try_lock-verdict :
      (s : State)
      → (((try_lock s).0 ≡ pos 0) × (holds (try_lock s).1 ≡ true))
        ⊎ (((try_lock s).0 <ℤ pos 0) × (holds (try_lock s).1 ≡ holds s))
  unfolding try_lock
  try_lock-verdict s = verdict (mutex_trylock s) (trylock_holds s) (trylock_fails s)
    where
      verdict :
          (r : ℕ × State)
          → (r.0 ≡ 0 → holds r.1 ≡ true)
          → (r.0 ≢ 0 → holds r.1 ≡ holds s)
          → ((negated r.0 ≡ pos 0) × (holds r.1 ≡ true))
            ⊎ ((negated r.0 <ℤ pos 0) × (holds r.1 ≡ holds s))
      verdict (zero, t) taken failed = inl (refl, taken refl)
      verdict (suc e, t) taken failed =
          inr (omega arith, failed (λ none_. absurd (omega (arith, none_))))
