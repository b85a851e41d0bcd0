-- ===== src/Utils/Codec.antt =====
-- getU32, putU32, getS64 and putS64 of Utils.cpp. A buffer gives the byte at each offset from `p`;
-- an int64_t is its bit pattern, a number below 2 ^ 64.
use Prim.Native.Nat.{bit_or}
use tools_on_linux.Prelude.{
  zero, suc, ltb, ap, ltb, ◌+◌, ◌*◌, ◌/◌, ◌%◌, ◌^◌, ◌<◌, ap, ◌==◌, ◌≡◌, if◌then◌else◌, ℕ, zero, suc,
  arith, ◌∙◌,
}
use tools_on_linux.Bits.{or_fields}

abbrev pub Buffer : Type 0
Buffer = ℕ → ℕ

-- `p[i] = v`, converted to unsigned char.
abbrev pub put_byte : Buffer → ℕ → ℕ → Buffer
put_byte p i v j = if j == i then v % 2 ^ 8 else p j

unfoldable pub get_u32 : Buffer → ℕ
get_u32 p = bit_or (bit_or (bit_or (p 0 * 2 ^ 24) (p 1 * 2 ^ 16)) (p 2 * 2 ^ 8)) (p 3)

-- The result and the buffer; `n & 0xFF` is the remainder.
unfoldable pub put_u32 : Buffer → ℕ → ℕ × Buffer
put_u32 p n =
    let p = put_byte p 0 (n / 2 ^ 24) in
    let p = put_byte p 1 (n / 2 ^ 16) in
    let p = put_byte p 2 (n / 2 ^ 8) in let p = put_byte p 3 (n % 2 ^ 8) in (4, p)

-- The shifts of `getS64`, the first byte first.
unfoldable pub get_s64 : Buffer → ℕ
get_s64 p =
    let n = bit_or (p 0 * 2 ^ 56) (p 1 * 2 ^ 48) in
    let n = bit_or n (p 2 * 2 ^ 40) in
    let n = bit_or n (p 3 * 2 ^ 32) in
    let n = bit_or n (p 4 * 2 ^ 24) in
    let n = bit_or n (p 5 * 2 ^ 16) in let n = bit_or n (p 6 * 2 ^ 8) in bit_or n (p 7)

unfoldable pub put_s64 : Buffer → ℕ → ℕ × Buffer
put_s64 p n =
    let p = put_byte p 0 (n / 2 ^ 56) in
    let p = put_byte p 1 (n / 2 ^ 48) in
    let p = put_byte p 2 (n / 2 ^ 40) in
    let p = put_byte p 3 (n / 2 ^ 32) in
    let p = put_byte p 4 (n / 2 ^ 24) in
    let p = put_byte p 5 (n / 2 ^ 16) in
    let p = put_byte p 6 (n / 2 ^ 8) in let p = put_byte p 7 (n % 2 ^ 8) in (8, p)

abbrev pub IsBytes : Buffer → Type 0
IsBytes p = (i : ℕ) → p i < 2 ^ 8

-- The fields as a number in base 256.
get_u32-digits :
    (p : Buffer) → IsBytes p → get_u32 p ≡ ((p 0 * 2 ^ 8 + p 1) * 2 ^ 8 + p 2) * 2 ^ 8 + p 3
unfolding get_u32
get_u32-digits p b =
    rw (first, second) (or_fields 8 ((p 0 * 2 ^ 8 + p 1) * 2 ^ 8 + p 2) (p 3) (b 3))
  where
    first : bit_or (p 0 * 2 ^ 24) (p 1 * 2 ^ 16) ≡ (p 0 * 2 ^ 8 + p 1) * 2 ^ 16
    first = or_fields 24 (p 0) (p 1 * 2 ^ 16) (omega (arith, b 1)) ∙ omega arith

    second :
        bit_or ((p 0 * 2 ^ 8 + p 1) * 2 ^ 16) (p 2 * 2 ^ 8)
        ≡ ((p 0 * 2 ^ 8 + p 1) * 2 ^ 8 + p 2) * 2 ^ 8
    second = or_fields 16 (p 0 * 2 ^ 8 + p 1) (p 2 * 2 ^ 8) (omega (arith, b 2)) ∙ omega arith

IsBytes-put_byte : (p : Buffer) (i v : ℕ) → IsBytes p → IsBytes (put_byte p i v)
IsBytes-put_byte p i v b j = ground (arith, b j)

-- A number of 32 bits put into a buffer of bytes is got back.
pub get_u32-put_u32 : (p : Buffer) (n : ℕ) → IsBytes p → n < 2 ^ 32 → get_u32 (put_u32 p n).1 ≡ n
unfolding put_u32
get_u32-put_u32 p n b small =
    get_u32-digits (put_u32 p n).1 (
      IsBytes-put_byte _ 3 _
        (IsBytes-put_byte _ 2 _ (IsBytes-put_byte _ 1 _ (IsBytes-put_byte p 0 _ b))))
    ∙ omega (arith, small)

put_digits :
    (p q : Buffer) (i : ℕ)
    → IsBytes p
    → (put_u32 q (((p 0 * 2 ^ 8 + p 1) * 2 ^ 8 + p 2) * 2 ^ 8 + p 3)).1 i
      ≡ (if ltb i 4 then p i else q i)
unfolding put_u32
put_digits p q zero b = omega (arith, b 0, b 1, b 2, b 3)
put_digits p q (suc zero) b = omega (arith, b 0, b 1, b 2, b 3)
put_digits p q (suc (suc zero)) b = omega (arith, b 0, b 1, b 2, b 3)
put_digits p q (suc (suc (suc zero))) b = omega (arith, b 0, b 1, b 2, b 3)
put_digits p q (suc (suc (suc (suc i)))) b = ground arith

-- The bytes of a number that was got are put back, and no others change.
pub put_u32-get_u32 :
    (p q : Buffer) (i : ℕ)
    → IsBytes p
    → (put_u32 q (get_u32 p)).1 i ≡ (if ltb i 4 then p i else q i)
put_u32-get_u32 p q i b = ap (λ n. (put_u32 q n).1 i) (get_u32-digits p b) ∙ put_digits p q i b

-- The same for the eight bytes of an int64_t.
get_s64-digits :
    (p : Buffer)
    → IsBytes p
    → get_s64 p
      ≡ ((((((p 0 * 2 ^ 8 + p 1) * 2 ^ 8 + p 2) * 2 ^ 8 + p 3) * 2 ^ 8 + p 4) * 2 ^ 8 + p 5) * 2 ^ 8
            + p 6)
          * 2 ^ 8
        + p 7
unfolding get_s64
get_s64-digits p b =
    rw (step_1, step_2, step_3, step_4, step_5, step_6)
      (or_fields 8
        ((((((p 0 * 2 ^ 8 + p 1) * 2 ^ 8 + p 2) * 2 ^ 8 + p 3) * 2 ^ 8 + p 4) * 2 ^ 8 + p 5) * 2 ^ 8
          + p 6)
        (p 7) (b 7))
  where
    step_1 : bit_or (p 0 * 2 ^ 56) (p 1 * 2 ^ 48) ≡ (p 0 * 2 ^ 8 + p 1) * 2 ^ 48
    step_1 = or_fields 56 (p 0) (p 1 * 2 ^ 48) (omega (arith, b 1)) ∙ omega arith

    step_2 :
        bit_or ((p 0 * 2 ^ 8 + p 1) * 2 ^ 48) (p 2 * 2 ^ 40)
        ≡ ((p 0 * 2 ^ 8 + p 1) * 2 ^ 8 + p 2) * 2 ^ 40
    step_2 = or_fields 48 (p 0 * 2 ^ 8 + p 1) (p 2 * 2 ^ 40) (omega (arith, b 2)) ∙ omega arith

    step_3 :
        bit_or (((p 0 * 2 ^ 8 + p 1) * 2 ^ 8 + p 2) * 2 ^ 40) (p 3 * 2 ^ 32)
        ≡ (((p 0 * 2 ^ 8 + p 1) * 2 ^ 8 + p 2) * 2 ^ 8 + p 3) * 2 ^ 32
    step_3 =
        or_fields 40 ((p 0 * 2 ^ 8 + p 1) * 2 ^ 8 + p 2) (p 3 * 2 ^ 32) (omega (arith, b 3))
        ∙ omega arith

    step_4 :
        bit_or ((((p 0 * 2 ^ 8 + p 1) * 2 ^ 8 + p 2) * 2 ^ 8 + p 3) * 2 ^ 32) (p 4 * 2 ^ 24)
        ≡ ((((p 0 * 2 ^ 8 + p 1) * 2 ^ 8 + p 2) * 2 ^ 8 + p 3) * 2 ^ 8 + p 4) * 2 ^ 24
    step_4 =
        or_fields 32 (((p 0 * 2 ^ 8 + p 1) * 2 ^ 8 + p 2) * 2 ^ 8 + p 3) (p 4 * 2 ^ 24)
          (omega (arith, b 4))
        ∙ omega arith

    step_5 :
        bit_or
          (((((p 0 * 2 ^ 8 + p 1) * 2 ^ 8 + p 2) * 2 ^ 8 + p 3) * 2 ^ 8 + p 4) * 2 ^ 24)
          (p 5 * 2 ^ 16)
        ≡ (((((p 0 * 2 ^ 8 + p 1) * 2 ^ 8 + p 2) * 2 ^ 8 + p 3) * 2 ^ 8 + p 4) * 2 ^ 8 + p 5)
          * 2 ^ 16
    step_5 =
        or_fields 24 ((((p 0 * 2 ^ 8 + p 1) * 2 ^ 8 + p 2) * 2 ^ 8 + p 3) * 2 ^ 8 + p 4)
          (p 5 * 2 ^ 16) (omega (arith, b 5))
        ∙ omega arith

    step_6 :
        bit_or
          ((((((p 0 * 2 ^ 8 + p 1) * 2 ^ 8 + p 2) * 2 ^ 8 + p 3) * 2 ^ 8 + p 4) * 2 ^ 8 + p 5)
            * 2 ^ 16)
          (p 6 * 2 ^ 8)
        ≡ ((((((p 0 * 2 ^ 8 + p 1) * 2 ^ 8 + p 2) * 2 ^ 8 + p 3) * 2 ^ 8 + p 4) * 2 ^ 8 + p 5)
              * 2 ^ 8
            + p 6)
          * 2 ^ 8
    step_6 =
        or_fields 16
          (((((p 0 * 2 ^ 8 + p 1) * 2 ^ 8 + p 2) * 2 ^ 8 + p 3) * 2 ^ 8 + p 4) * 2 ^ 8 + p 5)
          (p 6 * 2 ^ 8) (omega (arith, b 6))
        ∙ omega arith

-- A number of 64 bits put into a buffer of bytes is got back.
pub get_s64-put_s64 : (p : Buffer) (n : ℕ) → IsBytes p → n < 2 ^ 64 → get_s64 (put_s64 p n).1 ≡ n
unfolding put_s64
get_s64-put_s64 p n b small =
    get_s64-digits (put_s64 p n).1 (
      IsBytes-put_byte _ 7 _ (
        IsBytes-put_byte _ 6 _ (
          IsBytes-put_byte _ 5 _ (
            IsBytes-put_byte _ 4 _ (
              IsBytes-put_byte _ 3 _
                (IsBytes-put_byte _ 2 _ (IsBytes-put_byte _ 1 _ (IsBytes-put_byte p 0 _ b))))))))
    ∙ omega (arith, small)
