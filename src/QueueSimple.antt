-- ===== src/QueueSimple.antt =====
-- QueueSimple.cpp, the example program. Here is cmp_int_ptr, its comparator; `value` gives the field of
-- that name for the user's struct at an address.
use tools_on_linux.Queue.Sorting.{IsComparator}
use tools_on_linux.Queue.State.{Queue, Compare}
use tools_on_linux.Prelude.{◌∙◌, sym, ℕ, ◌+◌, ◌≡◌, ◌<◌, ◌≤◌, true, refl, arith, if◌then◌else◌}
use tools_on_linux.Prelude.Int.{ℤ, pos, negsuc, ltb_ℤ, leb_ℤ}
pub mod Workers
pub mod Carrying
pub mod Produce
pub mod Consume
pub mod Race
pub mod Exchange
pub mod HandOver
pub mod Main
mod Modes
mod Tests
mod SortedTests

unfoldable pub cmp_int_ptr : (ℕ → ℤ) → Compare
cmp_int_ptr value a b =
    if ltb_ℤ (value a) (value b)
    then negsuc 0
    else if ltb_ℤ (value b) (value a)
    then pos 1
    else pos 0

-- Its sign is that of the comparison of the values.
cmp_int_ptr-leb :
    (value : ℕ → ℤ) (a b : ℕ)
    → (leb_ℤ (cmp_int_ptr value a b) (pos 0) ≡ leb_ℤ (value a) (value b))
      × (leb_ℤ (pos 0) (cmp_int_ptr value a b) ≡ leb_ℤ (value b) (value a))
unfolding cmp_int_ptr
cmp_int_ptr-leb value a b = (ground arith, ground arith)

leb_ℤ-trans : (a b c : ℤ) → leb_ℤ a b ≡ true → leb_ℤ b c ≡ true → leb_ℤ a c ≡ true
leb_ℤ-trans a b c ab bc = ground arith

-- cmp_int_ptr keeps to the contract that a sorted queue asks of its comparator, whatever the values.
pub cmp_int_ptr-IsComparator : (value : ℕ → ℤ) → IsComparator (cmp_int_ptr value)
cmp_int_ptr-IsComparator value = record {
  flip = λ a b. rw ((cmp_int_ptr-leb value a b).0) (sym ((cmp_int_ptr-leb value b a).1));
  trans = λ a b c ab bc.
      (cmp_int_ptr-leb value a c).0
      ∙ leb_ℤ-trans (value a) (value b) (value c) (sym ((cmp_int_ptr-leb value a b).0) ∙ ab)
          (sym ((cmp_int_ptr-leb value b c).0) ∙ bc);
}
