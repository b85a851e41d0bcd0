-- ===== src/Condition/Early.antt =====
-- waitRelative and waitRelativeUs for a negative time.
use tools_on_linux.Prelude.{
  ℕ, zero, suc, ◌+◌, ◌-◌, ◌*◌, ◌/◌, ◌%◌, ◌<◌, ◌≤◌, Bool, true, false, Option, none, some, ltb,
  if◌then◌else◌, ◌⊎◌, ◌≡◌, refl, sym, arith, inl, inr, Bool-cases, ◌∙◌, ap, if_false,
}
use tools_on_linux.Prelude.Int.{ℤ, pos, negsuc, pos_part, negated, times_ℤ, rem_ℤ, ◌<ℤ◌}
use tools_on_linux.Condition.Deadline.{
  TimeSpec, int64_max, leaves_int64, add_time, deadline, deadline_us, IsNormal,
}

-- What comes of a time before now, of `n` units, where a second has `unit` of them.
abbrev pub Fails : (n unit : ℕ) → Option TimeSpec → Type 0
Fails n unit o =
    ((unit ≤ n) × (o ≡ none)) ⊎ ((n < unit) × (d : TimeSpec) × (o ≡ some d) × (d.nsec <ℤ pos 0))

add_one : (m : ℕ) → m + 1 ≡ suc m
add_one m = omega arith

zero-mul : (k : ℕ) → 0 * k ≡ 0
zero-mul k = omega arith

times_ℤ-negated : (m k : ℕ) → times_ℤ (negated m) k ≡ negated (m * k)
times_ℤ-negated zero k = ap pos (zero-mul k) ∙ sym (ap negated (zero-mul k))
times_ℤ-negated (suc m) k = ap (λ j. negated (j * k)) (add_one m)

rem_ℤ-negated : (m : ℕ) → rem_ℤ (negated m) 1000000000 ≡ negated (m % 1000000000)
rem_ℤ-negated zero = refl
rem_ℤ-negated (suc m) = ap (λ j. negated (j % 1000000000)) (add_one m)

leaves_int64-small : (m : ℕ) → m ≤ int64_max → leaves_int64 (negated m) ≡ false
leaves_int64-small zero small = refl
leaves_int64-small (suc m) small = ground arith

below_zero :
    (s now rem : ℕ)
    → now < rem
    → (d : TimeSpec) × (add_time (record { sec = s; nsec = pos now }) (negated rem) (pos 0)
        ≡ some d)
      × (d.nsec <ℤ pos 0)
unfolding add_time
below_zero s now zero early = elim early [ ]
below_zero s now (suc r) early = (
  record {
    sec = if ltb (int64_max - 0) s then int64_max else s + 0;
    nsec = negsuc (suc r - now - 1);
  },
  ground arith,
  omega arith,
)

no_room :
    (s now rem k : ℕ)
    → now < 1000000000
    → add_time (record { sec = s; nsec = pos now }) (negated rem) (negsuc k) ≡ none
unfolding add_time
no_room s now zero k normal = ground arith
no_room s now (suc r) k normal = ground arith

fails :
    (s now n unit rem sec : ℕ) (o : Bool)
    → now < 1000000000
    → (n < unit → (o ≡ false) × (sec ≡ 0) × (now < rem))
    → (unit ≤ n → 0 < sec)
    → Fails n unit (
        if o
        then none
        else add_time (record { sec = s; nsec = pos now }) (negated rem) (negated sec))
fails s now n unit rem sec o normal short long = elim (Bool-cases (ltb n unit)) [
  | inl below ↦
      let less : n < unit = ground (arith, below) in
      let (fits, none_whole, early) = short less in
      let (d, is_some, negative) = below_zero s now rem early in
      inr (
        less,
        d,
        if_false o none _ fits
            ∙ ap (λ k. add_time (record { sec = s; nsec = pos now }) (negated rem) (negated k))
                none_whole
            ∙ is_some,
        negative,
      )
  | inr above ↦ let more : unit ≤ n = ground (arith, above) in inl (more, both sec o (long more))
]
  where
    both :
        (sec : ℕ) (o : Bool)
        → 0 < sec
        → if◌then◌else◌ {A = Option TimeSpec} o none
            (add_time (record { sec = s; nsec = pos now }) (negated rem) (negated sec))
          ≡ none
    both zero o some_ = elim some_ [ ]
    both (suc k) true some_ = refl
    both (suc k) false some_ = no_room s now rem k normal

-- For a negative time that the nanoseconds of the clock do not make up for, waitRelative and
-- waitRelativeUs do not come to a time that pthread_cond_timedwait accepts: from one second on a signed
-- number overflows, and below that the nanoseconds are negative.
pub deadline-negative :
    (ts : TimeSpec) (ms us : ℕ)
    → IsNormal ts
    → pos_part ts.nsec < (ms + 1) * 1000000
    → pos_part ts.nsec < (us + 1) * 1000
    → Fails (ms + 1) 1000 (deadline ts (negsuc ms))
      × Fails (us + 1) 1000000 (deadline_us ts (negsuc us))
unfolding deadline deadline_us
deadline-negative ts n m normal early early_us = at ts.nsec normal early early_us
  where
    at :
        (now : ℤ)
        → IsNormal (record { sec = ts.sec; nsec = now })
        → pos_part now < (n + 1) * 1000000
        → pos_part now < (m + 1) * 1000
        → Fails (n + 1) 1000 (deadline (record { sec = ts.sec; nsec = now }) (negsuc n))
          × Fails (m + 1) 1000000 (deadline_us (record { sec = ts.sec; nsec = now }) (negsuc m))
    at (negsuc k) (low, high) early early_us = absurd (omega (arith, low))
    at (pos k) (low, high) early early_us = (
      rw (times_ℤ-negated ((n + 1) * 1000) 1000, rem_ℤ-negated ((n + 1) * 1000 * 1000))
          (fails ts.sec k (n + 1) 1000 ((n + 1) * 1000 * 1000 % 1000000000) ((n + 1) / 1000)
            (leaves_int64 (negated ((n + 1) * 1000 * 1000))) (omega (arith, high))
            (λ short. (
              leaves_int64-small ((n + 1) * 1000 * 1000) (omega (arith, short)),
              omega (arith, short),
              omega (arith, short, early),
            ))
            (λ long. omega (arith, long))),
      rw (rem_ℤ-negated ((m + 1) * 1000)) (
          fails ts.sec k (m + 1) 1000000 ((m + 1) * 1000 % 1000000000) ((m + 1) / 1000000)
            (leaves_int64 (negated ((m + 1) * 1000))) (omega (arith, high))
            (λ short. (
              leaves_int64-small ((m + 1) * 1000) (omega (arith, short)),
              omega (arith, short),
              omega (arith, short, early_us),
            ))
            (λ long. omega (arith, long))),
    )
