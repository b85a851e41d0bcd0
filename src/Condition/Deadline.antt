-- ===== src/Condition/Deadline.antt =====
-- The deadlines of waitRelative and waitRelativeUs, where long has 64 bits.
use tools_on_linux.Prelude.{
  ℕ, ◌+◌, ◌-◌, ◌*◌, ◌/◌, ◌%◌, ◌^◌, ◌<◌, ◌≤◌, Bool, false, ◌&&◌, ◌||◌, Option, none, some, ltb, leb,
  if◌then◌else◌, ◌≡◌, arith, inl, inr, Bool-cases, ◌∙◌, ap, if_false,
}
use tools_on_linux.Prelude.Int.{
  ℤ, pos, negsuc, pos_part, ◌+ℤ◌, ◌-ℤ◌, times_ℤ, quot_ℤ, rem_ℤ, ltb_ℤ, leb_ℤ, ◌≤ℤ◌, ◌<ℤ◌,
}

-- struct timespec. The clock counts up from 0.
pub record TimeSpec : Type 0 where
  pub sec : ℕ
  pub nsec : ℤ

-- INT64_MAX, which is LONG_MAX as well.
abbrev pub int64_max : ℕ
int64_max = 2 ^ 63 - 1

-- Not an int64_t.
abbrev pub leaves_int64 : ℤ → Bool
leaves_int64 n = ltb_ℤ (pos int64_max) n || ltb_ℤ n (negsuc int64_max)

-- From the sum of the nanoseconds on. `none` where INT64_MAX - reltime_sec overflows.
unfoldable pub add_time : TimeSpec → (nsec sec : ℤ) → Option TimeSpec
add_time ts nsec sec =
    let sum = ts.nsec +ℤ nsec in
    let carry = ltb_ℤ sec (pos int64_max) && leb_ℤ (pos 1000000000) sum in
    let sec' = if carry then sec +ℤ pos 1 else sec in
    if ltb_ℤ sec' (pos 0)
    then none
    else some (record {
      sec = if ltb (int64_max - pos_part sec') ts.sec then int64_max else ts.sec + pos_part sec';
      nsec = if carry then sum -ℤ pos 1000000000 else sum;
    })

-- `none` where the product overflows, too.
unfoldable pub deadline : TimeSpec → ℤ → Option TimeSpec
deadline ts reltime =
    let product = times_ℤ (times_ℤ reltime 1000) 1000 in
    if leaves_int64 product
    then none
    else add_time ts (rem_ℤ product 1000000000) (quot_ℤ reltime 1000)

unfoldable pub deadline_us : TimeSpec → ℤ → Option TimeSpec
deadline_us ts reltime =
    let product = times_ℤ reltime 1000 in
    if leaves_int64 product
    then none
    else add_time ts (rem_ℤ product 1000000000) (quot_ℤ reltime 1000000)

-- What pthread_cond_timedwait asks of a time.
abbrev pub IsNormal : TimeSpec → Type 0
IsNormal ts = (pos 0 ≤ℤ ts.nsec) × (ts.nsec <ℤ pos 1000000000)

-- A normal time in nanoseconds.
abbrev pub nanoseconds : TimeSpec → ℕ
nanoseconds ts = ts.sec * 1000000000 + pos_part ts.nsec

-- The deadline lies so many nanoseconds behind the clock.
abbrev pub LiesBehind : TimeSpec → ℕ → Option TimeSpec → Type 0
LiesBehind ts n o =
    (d : TimeSpec) × (o ≡ some d) × (nanoseconds d ≡ nanoseconds ts + n) × IsNormal d

added :
    (s n nsec sec : ℕ)
    → n < 1000000000
    → nsec < 1000000000
    → s + sec + 1 ≤ int64_max
    → LiesBehind
        (record { sec = s; nsec = pos n })
        (sec * 1000000000 + nsec)
        (add_time (record { sec = s; nsec = pos n }) (pos nsec) (pos sec))
unfolding add_time
added s n nsec sec small small' room = elim (Bool-cases (leb 1000000000 (n + nsec))) [
  | inl over ↦ (
    record { sec = s + (sec + 1); nsec = pos (n + nsec - 1000000000) },
    ground arith,
    ground arith,
    (omega arith, ground (arith, small, small')),
  )
  | inr under ↦ (
    record { sec = s + sec; nsec = pos (n + nsec) },
    ground arith,
    omega arith,
    (omega arith, ground arith),
  )
]

from_added :
    (ts : TimeSpec) (n m : ℕ) (o : Bool) (x : Option TimeSpec)
    → o ≡ false
    → n ≡ m
    → LiesBehind ts n x
    → LiesBehind ts m (if o then none else x)
from_added ts n m o x fits same (d, is_some, behind, normal) =
    (d, if_false o none x fits ∙ is_some, behind ∙ ap (λ k. nanoseconds ts + k) same, normal)

-- The deadlines of waitRelative and waitRelativeUs lie as many milliseconds and microseconds behind the
-- clock as were asked for, and have a normal number of nanoseconds, where neither the product nor the
-- seconds overflow.
pub deadline-exact :
    (ts : TimeSpec) (reltime : ℕ)
    → IsNormal ts
    → reltime * 1000 * 1000 ≤ int64_max
    → ts.sec + reltime + 1 ≤ int64_max
    → LiesBehind ts (reltime * 1000000) (deadline ts (pos reltime))
      × LiesBehind ts (reltime * 1000) (deadline_us ts (pos reltime))
unfolding deadline deadline_us
deadline-exact ts reltime normal fits room = exact ts.nsec normal
  where
    exact :
        (now : ℤ)
        → IsNormal (record { sec = ts.sec; nsec = now })
        → LiesBehind
            (record { sec = ts.sec; nsec = now })
            (reltime * 1000000)
            (deadline (record { sec = ts.sec; nsec = now }) (pos reltime))
          × LiesBehind
              (record { sec = ts.sec; nsec = now })
              (reltime * 1000)
              (deadline_us (record { sec = ts.sec; nsec = now }) (pos reltime))
    exact (negsuc n) (low, high) = absurd (omega (arith, low))
    exact (pos n) (low, high) = (
      from_added (record { sec = ts.sec; nsec = pos n })
          (reltime / 1000 * 1000000000 + reltime * 1000 * 1000 % 1000000000) (reltime * 1000000)
          (leaves_int64 (pos (reltime * 1000 * 1000))) _ (ground (arith, fits)) (omega arith)
          (added ts.sec n (reltime * 1000 * 1000 % 1000000000) (reltime / 1000)
            (omega (arith, high)) (omega arith) (omega (arith, room))),
      from_added (record { sec = ts.sec; nsec = pos n })
          (reltime / 1000000 * 1000000000 + reltime * 1000 % 1000000000) (reltime * 1000)
          (leaves_int64 (pos (reltime * 1000))) _ (ground (arith, fits)) (omega arith)
          (added ts.sec n (reltime * 1000 % 1000000000) (reltime / 1000000) (omega (arith, high))
            (omega arith) (omega (arith, room))),
    )
