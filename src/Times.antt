-- ===== src/Times.antt =====
-- Times.cpp, and the clock of Logger.cpp: what they make of the timespec that clock_gettime fills. The
-- clock CLOCK_MONOTONIC is not negative; `none` stands for a call of clock_gettime that fails.
use tools_on_linux.Condition.Deadline.{int64_max}
use tools_on_linux.Prelude.{
  ℕ, ◌+◌, ◌*◌, ◌/◌, ◌<◌, ◌≤◌, ◌≡◌, Option, none, some, ltb, if◌then◌else◌, arith, refl, if_false,
  if_true, Bool, true, false, ap, ◌∙◌, ◌⊎◌, inl, inr,
}
mod Tests

-- A struct timespec that clock_gettime filled.
pub record ClockTime : Type 0 where
  pub sec : ℕ
  pub nsec : ℕ

abbrev pub nanoseconds : ClockTime → ℕ
nanoseconds t = t.sec * 1000000000 + t.nsec

-- `t.tv_sec = t.tv_nsec = 0` before the call.
abbrev pub filled : Option ClockTime → ClockTime
filled none = record { sec = 0; nsec = 0 }
filled (some t) = t

-- `none` where the product or the sum overflows.
unfoldable pub get_system_time_ns : Option ClockTime → Option ℕ
get_system_time_ns clock =
    let t = filled clock in
    let mono_ns = t.sec * 1000000000 + t.nsec in
    if ltb int64_max mono_ns then none else some mono_ns

unfoldable pub get_system_time_ms : Option ClockTime → Option ℕ
get_system_time_ms clock =
    let t = filled clock in
    let mono_ns = t.sec * 1000000000 + t.nsec in
    if ltb int64_max mono_ns then none else some (mono_ns / 1000000)

unfoldable pub get_system_time_us : Option ClockTime → Option ℕ
get_system_time_us clock =
    let t = filled clock in
    let mono_ns = t.sec * 1000000000 + t.nsec in
    if ltb int64_max mono_ns then none else some (mono_ns / 1000)

-- The function of Logger.cpp.
unfoldable pub get_current_time_millis : Option ClockTime → Option ℕ
get_current_time_millis clock =
    let t = filled clock in
    let mono_ns = t.sec * 1000000000 + t.nsec in
    if ltb int64_max mono_ns then none else some (mono_ns / 1000)

-- A clock with a normal number of nanoseconds, in the range of an int64_t: about 292 years.
pub record IsClock (t : ClockTime) : Type 0 where
  pub normal : t.nsec < 1000000000
  pub fits : t.sec < 9223372036

-- What the functions say of a clock.
pub record Reads (t : ClockTime) (ns us ms : ℕ) : Type 0 where
  pub ns_is : get_system_time_ns (some t) ≡ some ns
  pub us_is : get_system_time_us (some t) ≡ some us
  pub ms_is : get_system_time_ms (some t) ≡ some ms
  pub log_is : get_current_time_millis (some t) ≡ some us
  pub exact : ns ≡ nanoseconds t
  pub us_floor : (us * 1000 ≤ ns) × (ns < us * 1000 + 1000)
  pub ms_floor : (ms * 1000000 ≤ ns) × (ns < ms * 1000000 + 1000000)

-- One clock reading is not after the other.
abbrev pub NotAfter : ClockTime → ClockTime → Type 0
NotAfter t u = (t.sec < u.sec) ⊎ ((t.sec ≡ u.sec) × (t.nsec ≤ u.nsec))

clock-Reads :
    (t : ClockTime)
    → IsClock t
    → Reads t (nanoseconds t) (nanoseconds t / 1000) (nanoseconds t / 1000000)
unfolding get_system_time_ns get_system_time_us get_system_time_ms get_current_time_millis
clock-Reads t c =
    let fits : ltb int64_max (t.sec * 1000000000 + t.nsec) ≡ false =
      ground (arith, c.normal, c.fits) in
    record {
      ns_is = if_false _ _ _ fits;
      us_is = if_false _ _ _ fits;
      ms_is = if_false _ _ _ fits;
      log_is = if_false _ _ _ fits;
      exact = refl;
      us_floor = omega arith;
      ms_floor = omega arith;
    }

NotAfter-nanoseconds : (t u : ClockTime) → IsClock t → NotAfter t u → nanoseconds t ≤ nanoseconds u
NotAfter-nanoseconds t u c (inl sooner) = omega (arith, c.normal)
NotAfter-nanoseconds t u c (inr (same, less)) = omega arith

-- For two clock readings in range, one not after the other: getSystemTimeNs is exact, getSystemTimeUs
-- and getSystemTimeMs are the microseconds and milliseconds that are full, getCurrentTimeMillis gives the
-- microseconds, and none of them goes back.
pub times-Reads :
    (t u : ClockTime)
    → IsClock t
    → IsClock u
    → NotAfter t u
    → (ns us ms ns' us' ms' : ℕ) × Reads t ns us ms
      × Reads u ns' us' ms'
      × (ns ≤ ns')
      × (us ≤ us')
      × (ms ≤ ms')
times-Reads t u ct cu before =
    let later = NotAfter-nanoseconds t u ct before in
    (
      nanoseconds t,
      nanoseconds t / 1000,
      nanoseconds t / 1000000,
      nanoseconds u,
      nanoseconds u / 1000,
      nanoseconds u / 1000000,
      clock-Reads t ct,
      clock-Reads u cu,
      later,
      omega (arith, later),
      omega (arith, later),
    )
