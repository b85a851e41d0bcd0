-- ===== src/Poll/Masks.antt =====
-- The masks of setFdReadable and setFdWritable, bit by bit.
use tools_on_linux.Bits.{bit, bit-bounded, bit-zero, bit-bit_or, bit-bit_and, bit-ones}
use tools_on_linux.Poll.Table.{readable_events, writable_events}
use tools_on_linux.Prelude.{
  ℕ, zero, suc, ◌<◌, Bool, true, false, ◌==◌, leb, if◌then◌else◌, ◌≡◌, arith, refl,
}
use Prim.Native.Nat.{bit_or, bit_and}

-- Events are asked for where `on` has their bits, or taken back where `off` has them; every other one of
-- the 16 bits is as before.
abbrev pub Turned : Bool → (on off : ℕ → Bool) → (before after : ℕ) → Type 0
Turned true on off e e' = (k : ℕ) → k < 16 → bit k e' ≡ (if on k then 1 else bit k e)
Turned false on off e e' = (k : ℕ) → k < 16 → bit k e' ≡ (if off k then 0 else bit k e)

-- POLLIN is bit 0, POLLPRI bit 1 and POLLOUT bit 2.
abbrev pub is_pollin : ℕ → Bool
is_pollin k = k == 0

abbrev pub is_pollin_or_pri : ℕ → Bool
is_pollin_or_pri k = leb k 1

abbrev pub is_pollout : ℕ → Bool
is_pollout k = k == 2

or_turns :
    (k e m : ℕ) (on : Bool)
    → bit k m ≡ (if on then 1 else 0)
    → bit k (bit_or e m) ≡ (if on then 1 else bit k e)
or_turns k e m true h = omega (arith, bit-bit_or k e m, h, bit-bounded k e)
or_turns k e m false h = omega (arith, bit-bit_or k e m, h)

and_turns :
    (k e m : ℕ) (off : Bool)
    → bit k m ≡ (if off then 0 else 1)
    → bit k (bit_and e m) ≡ (if off then 0 else bit k e)
and_turns k e m true h = omega (arith, bit-bit_and k e m, h)
and_turns k e m false h = omega (arith, bit-bit_and k e m, h, bit-bounded k e)

three_bits : (k : ℕ) → bit k 3 ≡ (if is_pollin_or_pri k then 1 else 0)
unfolding bit
three_bits zero = refl
three_bits (suc zero) = refl
three_bits (suc (suc k)) = ground (arith, bit-zero k)

four_bits : (k : ℕ) → bit k 4 ≡ (if is_pollout k then 1 else 0)
unfolding bit
four_bits zero = refl
four_bits (suc zero) = refl
four_bits (suc (suc zero)) = refl
four_bits (suc (suc (suc k))) = ground (arith, bit-zero k)

all_but_pollin : (k : ℕ) → k < 16 → bit k 65534 ≡ (if is_pollin k then 0 else 1)
unfolding bit
all_but_pollin zero small = refl
all_but_pollin (suc k) small = ground (arith, bit-ones 15 k (omega (arith, small)))

all_but_pollout : (k : ℕ) → k < 16 → bit k 65531 ≡ (if is_pollout k then 0 else 1)
unfolding bit
all_but_pollout zero small = refl
all_but_pollout (suc zero) small = refl
all_but_pollout (suc (suc zero)) small = refl
all_but_pollout (suc (suc (suc k))) small = ground (arith, bit-ones 13 k (omega (arith, small)))

pub readable_events-Turned :
    (b : Bool) (e : ℕ) → Turned b is_pollin_or_pri is_pollin e (readable_events b e)
unfolding readable_events
readable_events-Turned true e = λ k small. or_turns k e 3 (is_pollin_or_pri k) (three_bits k)
readable_events-Turned false e =
    λ k small. and_turns k e 65534 (is_pollin k) (all_but_pollin k small)

pub writable_events-Turned :
    (b : Bool) (e : ℕ) → Turned b is_pollout is_pollout e (writable_events b e)
unfolding writable_events
writable_events-Turned true e = λ k small. or_turns k e 4 (is_pollout k) (four_bits k)
writable_events-Turned false e =
    λ k small. and_turns k e 65531 (is_pollout k) (all_but_pollout k small)
