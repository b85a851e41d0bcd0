-- ===== src/Condition/Timed.antt =====
-- The timed waits by the clock.
use tools_on_linux.Prelude.{
  ℕ, zero, suc, ◌+◌, ◌*◌, ◌<◌, ◌≤◌, ◌≡◌, ◌≢◌, ◌⊎◌, inl, inr, Option, none, some, true, ◌==◌,
  Bool-cases, ==_true→eq, false, arith, ap, ◌∙◌, subst,
}
use tools_on_linux.Prelude.Int.{ℤ, pos, negsuc, pos_part, negated}
use tools_on_linux.Pthread.{Pthread, etimedout, einval, monotonic}
use tools_on_linux.Condition.Deadline.{TimeSpec, int64_max, nanoseconds, LiesBehind, deadline-exact}
use tools_on_linux.Condition.Early.{Fails, deadline-negative}
use tools_on_linux.Condition.Calls.{
  Condition, new_condition_of, wait_until, wait_relative, wait_relative_us,
}

-- The clock of a new condition variable is the one that the timed waits read.
new_condition_of-clock : (type : ℕ) → (new_condition_of type).attr.clock ≡ monotonic
unfolding new_condition_of
new_condition_of-clock type = ground arith

negated-eq : (e k : ℕ) → (e == k) ≡ false → negated e ≢ negated k
negated-eq zero zero ne = cc
negated-eq zero (suc k) ne = λ same. cc
negated-eq (suc e) zero ne = λ same. cc
negated-eq (suc e) (suc k) ne = λ same. ground (arith, same)

module _ (p : Pthread) where
  open p use {
    State, holds, cond_timedwait, time, timedwait_holds, timedwait_refuses, timedwait_times_out,
    time_normal,
  }

  -- A wait that begins in `s`: it comes back with the mutex locked, and with a time-out only when the
  -- clock has gone on by `n` nanoseconds at least.
  abbrev pub Waits : State → ℕ → Option (ℤ × State) → Type 0
  Waits s n o =
      (c : ℤ) × (r : State) × (o ≡ some (c, r))
      × (holds r ≡ true)
      × ((c ≢ negated etimedout)
          ⊎ (nanoseconds (time monotonic s) + n ≤ nanoseconds (time monotonic r)))

  wait_until-Waits :
      (type : ℕ) (s : State) (n : ℕ) (o : Option TimeSpec)
      → holds s ≡ true
      → LiesBehind (time monotonic s) n o
      → Waits s n (wait_until p (new_condition_of type) o s)
  wait_until-Waits type s n o held (d, is_some, behind, normal) =
      let attr = (new_condition_of type).attr in
      let r = (cond_timedwait attr d s).1 in
      (
        negated (cond_timedwait attr d s).0,
        r,
        ap (λ x. wait_until p (new_condition_of type) x s) is_some,
        timedwait_holds attr d s held,
        elim (Bool-cases ((cond_timedwait attr d s).0 == etimedout)) [
          | inr other ↦ inl (negated-eq (cond_timedwait attr d s).0 etimedout other)
          | inl timed ↦
              let late =
                timedwait_times_out attr d s
                  (==_true→eq (cond_timedwait attr d s).0 etimedout timed) in
              inr (
                subst (λ c. nanoseconds (time monotonic s) + n ≤ nanoseconds (time c r))
                  (new_condition_of-clock type) (omega (arith, behind, late)))
        ],
      )

  -- waitRelative and waitRelativeUs with the mutex held: they come back with the mutex held, and with
  -- ETIMEDOUT only when at least as many milliseconds and microseconds have gone by on the clock that
  -- they read, whatever the type of the condition. The time is not negative, and neither its product nor
  -- the seconds overflow.
  pub wait_relative-Waits :
      (type reltime : ℕ) (s : State)
      → holds s ≡ true
      → reltime * 1000 * 1000 ≤ int64_max
      → (time monotonic s).sec + reltime + 1 ≤ int64_max
      → Waits s (reltime * 1000000) (wait_relative p (new_condition_of type) (pos reltime) s)
        × Waits s (reltime * 1000) (wait_relative_us p (new_condition_of type) (pos reltime) s)
  unfolding wait_relative wait_relative_us
  wait_relative-Waits type reltime s held fits room =
      let exact = deadline-exact (time monotonic s) reltime (time_normal monotonic s) fits room in
      (
        wait_until-Waits type s (reltime * 1000000) _ held exact.0,
        wait_until-Waits type s (reltime * 1000) _ held exact.1,
      )

  -- A wait for a time before now, of `n` units of which a second has `unit`.
  abbrev pub Refuses : (n unit : ℕ) → Option (ℤ × State) → Type 0
  Refuses n unit o =
      ((unit ≤ n) × (o ≡ none))
      ⊎ ((n < unit) × (r : State) × (o ≡ some (negated einval, r)) × (holds r ≡ true))

  wait_until-Refuses :
      (c : Condition) (s : State) (n unit : ℕ) (o : Option TimeSpec)
      → holds s ≡ true
      → Fails n unit o
      → Refuses n unit (wait_until p c o s)
  wait_until-Refuses c s n unit o held (inl (long, overflow)) =
      inl (long, ap (λ x. wait_until p c x s) overflow)
  wait_until-Refuses c s n unit o held (inr (short, d, is_some, early)) = inr (
    short,
    (cond_timedwait c.attr d s).1,
    ap (λ x. wait_until p c x s) is_some
        ∙ ap (λ e. some (negated e, (cond_timedwait c.attr d s).1))
            (timedwait_refuses c.attr d s early),
    timedwait_holds c.attr d s held,
  )

  -- waitRelative with the mutex held and a negative time of more milliseconds than the nanoseconds of the
  -- clock make up for, and waitRelativeUs with one of more such microseconds: from one second on a signed
  -- number overflows, and below that they give EINVAL, not ETIMEDOUT, with the mutex held.
  pub wait_relative-Refuses :
      (c : Condition) (ms us : ℕ) (s : State)
      → holds s ≡ true
      → pos_part (time monotonic s).nsec < (ms + 1) * 1000000
      → pos_part (time monotonic s).nsec < (us + 1) * 1000
      → Refuses (ms + 1) 1000 (wait_relative p c (negsuc ms) s)
        × Refuses (us + 1) 1000000 (wait_relative_us p c (negsuc us) s)
  unfolding wait_relative wait_relative_us
  wait_relative-Refuses c ms us s held early early_us =
      let fails =
        deadline-negative (time monotonic s) ms us (time_normal monotonic s) early early_us in
      (
        wait_until-Refuses c s (ms + 1) 1000 _ held fails.0,
        wait_until-Refuses c s (us + 1) 1000000 _ held fails.1,
      )
