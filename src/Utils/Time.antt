-- ===== src/Utils/Time.antt =====
-- The time macros of Utils.h on an int64_t.
use tools_on_linux.Prelude.{
  ℕ, suc, ◌-◌, ◌*◌, ◌/◌, ◌%◌, ◌^◌, ◌≡◌, Bool, true, false, Option, none, some, ltb, if◌then◌else◌,
  refl, zero,
}
use tools_on_linux.Prelude.Int.{ℤ, pos, negsuc}

-- TIME_SECOND, an int.
abbrev pub time_second : ℕ
time_second = 1000000000

-- A product of type int; `none` where it overflows.
abbrev pub int_product : Option ℕ → ℕ → Option ℕ
int_product none b = none
int_product (some a) b = if ltb (a * b) (2 ^ 31) then some (a * b) else none

-- TIME_IS_VALID: not -1.
abbrev pub time_is_valid : ℤ → Bool
time_is_valid (pos n) = true
time_is_valid (negsuc zero) = false
time_is_valid (negsuc (suc n)) = true

-- `/` and `%` of C, which round to zero, and the conversion to uint32_t.
abbrev negated : ℕ → ℤ
negated zero = pos 0
negated (suc n) = negsuc n

abbrev pub quotient : ℤ → ℕ → ℤ
quotient (pos n) d = pos (n / d)
quotient (negsuc n) d = negated (suc n / d)

abbrev pub remainder : ℤ → ℕ → ℤ
remainder (pos n) d = pos (n % d)
remainder (negsuc n) d = negated (suc n % d)

abbrev pub to_uint32 : ℤ → ℕ
to_uint32 (pos n) = n % 2 ^ 32
to_uint32 (negsuc n) = 2 ^ 32 - 1 - n % 2 ^ 32

-- The hours, minutes, seconds and nanoseconds by the divisors of the hours and of the minutes.
abbrev pub time_fields : ℤ → Option ℕ → Option ℕ → Option (ℕ × ℕ × ℕ × ℕ)
time_fields t none minute = none
time_fields t (some hour) none = none
time_fields t (some hour) (some minute) = some (
  to_uint32 (quotient t hour),
  to_uint32 (remainder (quotient t minute) 60),
  to_uint32 (remainder (quotient t time_second) 60),
  to_uint32 (remainder t time_second),
)

unfoldable pub time_args : ℤ → Option (ℕ × ℕ × ℕ × ℕ)
time_args t =
    if time_is_valid t
    then time_fields t (int_product (int_product (some time_second) 60) 60)
        (int_product (some time_second) 60)
    else some (99, 99, 99, 999999999)

-- TIME_ARGS gives a value for no time but TIME_INVALID_VALUE: the products by which it divides
-- overflow an int.
pub time_args-overflows :
    (t : ℤ) → time_args t ≡ (if time_is_valid t then none else some (99, 99, 99, 999999999))
unfolding time_args
time_args-overflows t = refl
