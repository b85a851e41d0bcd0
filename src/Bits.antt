-- ===== src/Bits.antt =====
-- Shifted fields joined by `|`, and masks cut out by `&`, as arithmetic at every width.
use Prim.Native.Nat.{min, max, digits, bitwise, bit_and, bit_or, bit_and-bitwise, bit_or-bitwise}
use native.Mathlib.Nat.{pow-suc, one-le-pow}
use tools_on_linux.Prelude.{
  ℕ, zero, suc, ◌+◌, ◌-◌, ◌*◌, ◌/◌, ◌%◌, ◌^◌, ◌≤◌, ◌<◌, ◌≡◌, refl, ap, arith, ◌∙◌,
}

module _ (last : ℕ → ℕ) (digit : ℕ → ℕ → ℕ) where
  -- Any two amounts of fuel that cover the first operand give the same digits.
  enough_digits : (a b n m : ℕ) → a ≤ n → a ≤ m → digits last digit n a b ≡ digits last digit m a b
  enough_digits zero b zero zero p q = refl
  enough_digits zero b zero (suc m) p q = refl
  enough_digits zero b (suc n) zero p q = refl
  enough_digits zero b (suc n) (suc m) p q = refl
  enough_digits (suc a) b zero m p q = absurd (omega arith)
  enough_digits (suc a) b (suc n) zero p q = absurd (omega arith)
  enough_digits (suc a) b (suc n) (suc m) p q =
      ap (λ r. r * 2 + digit (suc a % 2) (b % 2))
        (enough_digits (suc a / 2) (b / 2) n m (omega arith) (omega arith))

  lowest_digit :
      (a b : ℕ)
      → bitwise last digit (suc a) b
        ≡ bitwise last digit (suc a / 2) (b / 2) * 2 + digit (suc a % 2) (b % 2)
  lowest_digit a b =
      ap (λ r. r * 2 + digit (suc a % 2) (b % 2))
        (enough_digits (suc a / 2) (b / 2) a (suc a / 2) (omega arith) (omega arith))

or_digit : (a b : ℕ) → bit_or a b ≡ bit_or (a / 2) (b / 2) * 2 + max (a % 2) (b % 2)
or_digit zero b = simp bit_or-bitwise (omega arith)
or_digit (suc a) b = simp bit_or-bitwise (lowest_digit (λ y. y) max a b)

and_digit : (a b : ℕ) → bit_and a b ≡ bit_and (a / 2) (b / 2) * 2 + min (a % 2) (b % 2)
and_digit zero b = simp bit_and-bitwise (omega arith)
and_digit (suc a) b = simp bit_and-bitwise (lowest_digit (λ y. 0) min a b)

or_zero_fuel : (n a : ℕ) → a ≤ n → bit_or a 0 ≡ a
or_zero_fuel n zero h = refl
or_zero_fuel zero (suc a) h = absurd (omega arith)
or_zero_fuel (suc n) (suc a) h =
    omega (arith, or_digit (suc a) 0, or_zero_fuel n (suc a / 2) (omega arith))

and_zero_fuel : (n a : ℕ) → a ≤ n → bit_and a 0 ≡ 0
and_zero_fuel n zero h = refl
and_zero_fuel zero (suc a) h = absurd (omega arith)
and_zero_fuel (suc n) (suc a) h =
    omega (arith, and_digit (suc a) 0, and_zero_fuel n (suc a / 2) (omega arith))

double : (q k : ℕ) → q * 2 ^ suc k ≡ q * 2 ^ k * 2
double q k = omega (arith, ap (λ (t : ℕ). q * t) (pow-suc 2 k))

-- `(q << k) | r` where `r` fits below the field.
pub or_fields : (k q r : ℕ) → r < 2 ^ k → bit_or (q * 2 ^ k) r ≡ q * 2 ^ k + r
or_fields zero q zero fits = omega (arith, or_zero_fuel (q * 1) (q * 1) (omega arith))
or_fields zero q (suc r) fits = absurd (omega arith)
or_fields (suc k) q r fits = ground (
  arith,
  double q k,
  pow-suc 2 k,
  or_digit (q * 2 ^ suc k) r,
  or_fields k q (r / 2) (omega (arith, pow-suc 2 k)),
)

-- A mask with `k` zeros below it drops the low field.
and_high : (k q r m : ℕ) → r < 2 ^ k → bit_and (q * 2 ^ k + r) (m * 2 ^ k) ≡ bit_and q m * 2 ^ k
and_high zero q zero m fits = ground arith
and_high zero q (suc r) m fits = absurd (omega arith)
and_high (suc k) q r m fits = ground (
  arith,
  double q k,
  double m k,
  double (bit_and q m) k,
  and_digit (q * 2 ^ suc k + r) (m * 2 ^ suc k),
  and_high k q (r / 2) m (omega (arith, pow-suc 2 k)),
)

-- A mask of `j` ones keeps what fits `j` bits.
and_ones : (j a : ℕ) → a < 2 ^ j → bit_and a (2 ^ j - 1) ≡ a
and_ones zero zero fits = refl
and_ones zero (suc a) fits = absurd (omega arith)
and_ones (suc j) a fits = ground (
  arith,
  pow-suc 2 j,
  one-le-pow j 2,
  and_digit a (2 ^ suc j - 1),
  and_ones j (a / 2) (omega (arith, pow-suc 2 j)),
)

-- `a & ~(2^k - 1)` in a word of `j + k` bits.
pub and_mask : (j k a : ℕ) → a / 2 ^ k < 2 ^ j → bit_and a ((2 ^ j - 1) * 2 ^ k) ≡ a / 2 ^ k * 2 ^ k
and_mask j k a fits = ground (
  arith,
  one-le-pow k 2,
  and_high k (a / 2 ^ k) (a % 2 ^ k) (2 ^ j - 1),
  and_ones j (a / 2 ^ k) fits,
)

-- The bit of weight 2 ^ k.
unfoldable pub bit : (k n : ℕ) → ℕ
bit zero n = n % 2
bit (suc k) n = bit k (n / 2)

pub bit-bounded : (k n : ℕ) → bit k n ≤ 1
unfolding bit
bit-bounded zero n = omega arith
bit-bounded (suc k) n = bit-bounded k (n / 2)

pub bit-zero : (k : ℕ) → bit k 0 ≡ 0
unfolding bit
bit-zero zero = refl
bit-zero (suc k) = bit-zero k

pub bit-bit_or : (k a b : ℕ) → bit k (bit_or a b) ≡ max (bit k a) (bit k b)
unfolding bit
bit-bit_or zero a b = omega (arith, or_digit a b)
bit-bit_or (suc k) a b = ap (bit k) (omega (arith, or_digit a b)) ∙ bit-bit_or k (a / 2) (b / 2)

pub bit-bit_and : (k a b : ℕ) → bit k (bit_and a b) ≡ min (bit k a) (bit k b)
unfolding bit
bit-bit_and zero a b = omega (arith, and_digit a b)
bit-bit_and (suc k) a b = ap (bit k) (omega (arith, and_digit a b)) ∙ bit-bit_and k (a / 2) (b / 2)

-- A word of ones.
pub bit-ones : (n k : ℕ) → k < n → bit k (2 ^ n - 1) ≡ 1
unfolding bit
bit-ones zero k h = absurd (omega (arith, h))
bit-ones (suc n) zero h = omega (arith, pow-suc 2 n, one-le-pow n 2)
bit-ones (suc n) (suc k) h =
    ap (bit k) (omega (arith, pow-suc 2 n, one-le-pow n 2)) ∙ bit-ones n k (omega (arith, h))
