-- ===== src/Times/Tests.antt =====
-- Two clock readings, a second and a half apart.
use tools_on_linux.Times.{ClockTime, Reads, times-Reads}
use tools_on_linux.Prelude.{ℕ, ◌≤◌, arith, inl}

abbrev early : ClockTime
early = record { sec = 5; nsec = 900000000 }

abbrev late : ClockTime
late = record { sec = 7; nsec = 400000000 }

times-Reads_example :
    (ns us ms ns' us' ms' : ℕ) × Reads early ns us ms
    × Reads late ns' us' ms'
    × (ns ≤ ns')
    × (us ≤ us')
    × (ms ≤ ms')
times-Reads_example =
    times-Reads early late (record { normal = omega arith; fits = omega arith })
      (record { normal = omega arith; fits = omega arith }) (inl (omega arith))
