-- ===== src/Utils/Rounding.antt =====
-- The rounding macros of Utils.h on a uint32_t.
use Prim.Native.Nat.{bit_and}
use native.Mathlib.Nat.{
  pow-suc, div-lt_iff_lt-mul, one-le-pow, mul-mod_left, div-mul-le_self, lt-div-mul-add,
}
use tools_on_linux.Prelude.{
  ℕ, zero, suc, ◌+◌, ◌-◌, ◌*◌, ◌/◌, ◌%◌, ◌^◌, ◌≤◌, ◌<◌, ◌≡◌, arith, ap, ◌∙◌,
}
use tools_on_linux.Bits.{and_mask}

-- `(num) & ~(mask)`
abbrev pub clear : ℕ → ℕ → ℕ
clear num mask = bit_and num (2 ^ 32 - 1 - mask)

-- `align - 1`
abbrev pub below : ℕ → ℕ
below align = (align + 2 ^ 32 - 1) % 2 ^ 32

-- ROUND_UP_N and ROUND_DOWN_N
unfoldable pub round_up_n : ℕ → ℕ → ℕ
round_up_n num align = clear ((num + below align) % 2 ^ 32) (below align)

unfoldable pub round_down_n : ℕ → ℕ → ℕ
round_down_n num align = clear num (below align)

-- ROUND_UP_2, ROUND_UP_4 and so on, by their mask.
unfoldable pub round_up_2 : ℕ → ℕ
round_up_2 num = clear ((num + 1) % 2 ^ 32) 1

unfoldable pub round_up_4 : ℕ → ℕ
round_up_4 num = clear ((num + 3) % 2 ^ 32) 3

unfoldable pub round_up_8 : ℕ → ℕ
round_up_8 num = clear ((num + 7) % 2 ^ 32) 7

unfoldable pub round_up_16 : ℕ → ℕ
round_up_16 num = clear ((num + 15) % 2 ^ 32) 15

unfoldable pub round_up_32 : ℕ → ℕ
round_up_32 num = clear ((num + 31) % 2 ^ 32) 31

unfoldable pub round_up_64 : ℕ → ℕ
round_up_64 num = clear ((num + 63) % 2 ^ 32) 63

unfoldable pub round_up_128 : ℕ → ℕ
round_up_128 num = clear ((num + 127) % 2 ^ 32) 127

unfoldable pub round_down_2 : ℕ → ℕ
round_down_2 num = clear num 1

unfoldable pub round_down_4 : ℕ → ℕ
round_down_4 num = clear num 3

unfoldable pub round_down_8 : ℕ → ℕ
round_down_8 num = clear num 7

unfoldable pub round_down_16 : ℕ → ℕ
round_down_16 num = clear num 15

unfoldable pub round_down_32 : ℕ → ℕ
round_down_32 num = clear num 31

unfoldable pub round_down_64 : ℕ → ℕ
round_down_64 num = clear num 63

unfoldable pub round_down_128 : ℕ → ℕ
round_down_128 num = clear num 127

zero_add : (k : ℕ) → 0 + k ≡ k
zero_add k = omega arith

suc_add : (j k : ℕ) → suc j + k ≡ suc (j + k)
suc_add j k = omega arith

pow_add : (j k : ℕ) → 2 ^ j * 2 ^ k ≡ 2 ^ (j + k)
pow_add zero k = omega (arith, ap (λ (n : ℕ). 2 ^ n) (zero_add k))
pow_add (suc j) k = omega (
  arith,
  ap (λ (t : ℕ). t * 2 ^ k) (pow-suc 2 j),
  pow-suc 2 (j + k),
  pow_add j k,
  ap (λ (n : ℕ). 2 ^ n) (suc_add j k),
)

-- `~(2^k - 1)` in a word of 32 bits.
mask_eq : (a b : ℕ) → a * b ≡ 2 ^ 32 → 2 ^ 32 - 1 - (b - 1) ≡ (a - 1) * b
mask_eq zero b e = absurd (omega arith)
mask_eq (suc a) zero e = absurd (omega arith)
mask_eq (suc a) (suc b) e = grind arith

quotient_bound : (num a b : ℕ) → num < a * b → num / b < a
quotient_bound num a (suc b) h = (div-lt_iff_lt-mul (omega arith)).1 h
quotient_bound num a zero h = absurd (omega arith)

-- The mask of a power of two leaves the multiple below.
clear-power :
    (j k num : ℕ) → j + k ≡ 32 → num < 2 ^ 32 → clear num (2 ^ k - 1) ≡ num / 2 ^ k * 2 ^ k
clear-power j k num width small =
    ap (bit_and num) (mask_eq (2 ^ j) (2 ^ k) (pow_add j k ∙ ap (λ (n : ℕ). 2 ^ n) width))
    ∙ and_mask j k num (
        quotient_bound num (2 ^ j) (2 ^ k)
          (omega (arith, small, pow_add j k, ap (λ (n : ℕ). 2 ^ n) width)))

below-power : (a b : ℕ) → a * b ≡ 2 ^ 32 → below b ≡ b - 1
below-power zero b e = absurd (omega arith)
below-power (suc a) zero e = absurd (omega arith)
below-power (suc a) (suc b) e = grind arith

-- The least multiple of `m` that is not below `num`, and the greatest that is not above it.
abbrev pub IsRoundUp : ℕ → ℕ → ℕ → Type 0
IsRoundUp m num r = (r % m ≡ 0) × (num ≤ r) × (r < num + m)

abbrev pub IsRoundDown : ℕ → ℕ → ℕ → Type 0
IsRoundDown m num r = (r % m ≡ 0) × (r ≤ num) × (num < r + m)

multiple_below : (num b : ℕ) → 0 < b → IsRoundDown b num (num / b * b)
multiple_below num b some_ = (mul-mod_left _ _, div-mul-le_self _ _, lt-div-mul-add some_)

-- ROUND_UP_N and ROUND_DOWN_N round to multiples of a power of two, where the sum does not overflow.
pub round_n-IsRound :
    (num k : ℕ)
    → k ≤ 32
    → num + 2 ^ k ≤ 2 ^ 32
    → IsRoundUp (2 ^ k) num (round_up_n num (2 ^ k))
      × IsRoundDown (2 ^ k) num (round_down_n num (2 ^ k))
unfolding round_up_n round_down_n
round_n-IsRound num k fits room =
    let width : 32 - k + k ≡ 32 = omega (arith, fits) in
    let e : 2 ^ (32 - k) * 2 ^ k ≡ 2 ^ 32 = pow_add (32 - k) k ∙ ap (λ (n : ℕ). 2 ^ n) width in
    let positive = one-le-pow k 2 (omega arith) in
    let sum = num + (2 ^ k - 1) in
    let no_carry : sum % 2 ^ 32 ≡ sum = omega (arith, room, positive) in
    let (multiple, low, high) = multiple_below sum (2 ^ k) positive in
    (
      rw (below-power (2 ^ (32 - k)) (2 ^ k) e, no_carry)
          (rw (clear-power (32 - k) k sum width (omega (arith, room, positive)))
            (multiple, omega (arith, high, positive), omega (arith, low, positive))),
      rw (below-power (2 ^ (32 - k)) (2 ^ k) e) (
          rw (clear-power (32 - k) k num width (omega (arith, room, positive)))
            (multiple_below num (2 ^ k) positive)),
    )

-- So do the macros with a fixed power of two, below 2^32 - 128.
pub round_fixed-IsRound :
    (num : ℕ)
    → num + 128 ≤ 2 ^ 32
    → (IsRoundUp 2 num (round_up_2 num)
        × IsRoundUp 4 num (round_up_4 num)
        × IsRoundUp 8 num (round_up_8 num)
        × IsRoundUp 16 num (round_up_16 num)
        × IsRoundUp 32 num (round_up_32 num)
        × IsRoundUp 64 num (round_up_64 num)
        × IsRoundUp 128 num (round_up_128 num))
      × IsRoundDown 2 num (round_down_2 num)
      × IsRoundDown 4 num (round_down_4 num)
      × IsRoundDown 8 num (round_down_8 num)
      × IsRoundDown 16 num (round_down_16 num)
      × IsRoundDown 32 num (round_down_32 num)
      × IsRoundDown 64 num (round_down_64 num)
      × IsRoundDown 128 num (round_down_128 num)
unfolding round_up_n round_down_n round_up_2 round_up_4 round_up_8 round_up_16 round_up_32
    round_up_64 round_up_128 round_down_2 round_down_4 round_down_8 round_down_16 round_down_32
    round_down_64 round_down_128
round_fixed-IsRound num room = (
  (
    (round_n-IsRound num 1 (omega arith) (omega arith)).0,
    (round_n-IsRound num 2 (omega arith) (omega arith)).0,
    (round_n-IsRound num 3 (omega arith) (omega arith)).0,
    (round_n-IsRound num 4 (omega arith) (omega arith)).0,
    (round_n-IsRound num 5 (omega arith) (omega arith)).0,
    (round_n-IsRound num 6 (omega arith) (omega arith)).0,
    (round_n-IsRound num 7 (omega arith) (omega arith)).0,
  ),
  (round_n-IsRound num 1 (omega arith) (omega arith)).1,
  (round_n-IsRound num 2 (omega arith) (omega arith)).1,
  (round_n-IsRound num 3 (omega arith) (omega arith)).1,
  (round_n-IsRound num 4 (omega arith) (omega arith)).1,
  (round_n-IsRound num 5 (omega arith) (omega arith)).1,
  (round_n-IsRound num 6 (omega arith) (omega arith)).1,
  (round_n-IsRound num 7 (omega arith) (omega arith)).1,
)
