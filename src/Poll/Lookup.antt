-- ===== src/Poll/Lookup.antt =====
-- The search of findFd.
use tools_on_linux.Poll.State.{Fds}
use tools_on_linux.Poll.Table.{find_from}
use tools_on_linux.Prelude.{
  ℕ, zero, suc, ◌+◌, ◌<◌, Bool, Option, none, some, ◌==◌, if◌then◌else◌, ◌≡◌, refl, arith, inl, inr,
  ◌∙◌, Bool-cases, ap, sym,
}

-- The search looks at the fd fields alone.
pub find_from-agree :
    (f g : Fds) (x : ℕ) (n i : ℕ)
    → ((j : ℕ) → j < i + n → (f j).fd ≡ (g j).fd)
    → find_from f x n i ≡ find_from g x n i
unfolding find_from
find_from-agree f g x zero i same = refl
find_from-agree f g x (suc n) i same =
    rw (same i (omega arith), find_from-agree f g x n (i + 1) (λ j h. same j (omega (arith, h))))
      refl

-- What an entry found is.
pub find_from-found :
    (f : Fds) (x : ℕ) (n i k : ℕ) → find_from f x n i ≡ some k → (k < i + n) × ((f k).fd ≡ x)
unfolding find_from
find_from-found f x zero i k e = cc
find_from-found f x (suc n) i k e = ground (arith, find_from-found f x n (i + 1) k)

zero_add_r : (i : ℕ) → i + 0 ≡ i
zero_add_r i = omega arith

shift : (i n : ℕ) → i + suc n ≡ i + 1 + n
shift i n = omega arith

-- The last entry counts where no earlier one does.
abbrev pub or_last : Option ℕ → Bool → ℕ → Option ℕ
or_last (some k) b l = some k
or_last none b l = if b then some l else none

pub find_from-last :
    (f : Fds) (x : ℕ) (n i : ℕ)
    → find_from f x (suc n) i ≡ or_last (find_from f x n i) ((f (i + n)).fd == x) (i + n)
unfolding find_from
find_from-last f x zero i = ap (λ l. if (f l).fd == x then some l else none) (sym (zero_add_r i))
find_from-last f x (suc n) i = elim (Bool-cases ((f i).fd == x)) [
  | inl here ↦ rw here refl
  | inr on ↦ rw on (
      find_from-last f x n (i + 1)
      ∙ ap (λ l. or_last (find_from f x n (i + 1)) ((f l).fd == x) l) (sym (shift i n)))
]

zero_add : (n : ℕ) → 0 + n ≡ n
zero_add n = omega arith

-- The same from the first entry on.
pub find_from_first-last :
    (f : Fds) (x n : ℕ) → find_from f x (suc n) 0 ≡ or_last (find_from f x n 0) ((f n).fd == x) n
find_from_first-last f x n =
    find_from-last f x n 0 ∙ ap (λ l. or_last (find_from f x n 0) ((f l).fd == x) l) (zero_add n)
