-- ===== src/Queue/Ordered.antt =====
-- A sorted list: neighbour by neighbour, and each element before all behind it.
use tools_on_linux.Prelude.{ℕ, Bool, true, false, List, [], ◌∷◌, ◌≡◌, sym, ◌∙◌}
use tools_on_linux.Queue.State.{Compare}
use tools_on_linux.Queue.Sorting.{before, IsComparator, IsSorted}

-- Each element may stand before every one behind it.
abbrev pub AllBehind : Bool → Compare → ℕ → List ℕ → Type 0
AllBehind asc cmp x [] = Unit {0}
AllBehind asc cmp x (y ∷ ys) = (before asc cmp x y ≡ true) × AllBehind asc cmp x ys

abbrev pub IsOrdered : Bool → Compare → List ℕ → Type 0
IsOrdered asc cmp [] = Unit {0}
IsOrdered asc cmp (x ∷ xs) = AllBehind asc cmp x xs × IsOrdered asc cmp xs

pub tail-IsSorted :
    (asc : Bool) (cmp : Compare) (x : ℕ) (xs : List ℕ)
    → IsSorted asc cmp (x ∷ xs)
    → IsSorted asc cmp xs
tail-IsSorted asc cmp x [] h = tt
tail-IsSorted asc cmp x (y ∷ xs) h = h.1

module _ (cmp : Compare) (law : IsComparator cmp) where
  before_trans :
      (asc : Bool) (a b c : ℕ)
      → before asc cmp a b ≡ true
      → before asc cmp b c ≡ true
      → before asc cmp a c ≡ true
  before_trans true a b c first second = law.trans a b c first second
  before_trans false a b c first second =
      sym (law.flip c a) ∙ law.trans c b a (law.flip c b ∙ second) (law.flip b a ∙ first)

  AllBehind-trans :
      (asc : Bool) (x y : ℕ) (ys : List ℕ)
      → before asc cmp x y ≡ true
      → AllBehind asc cmp y ys
      → AllBehind asc cmp x ys
  AllBehind-trans asc x y [] first all = tt
  AllBehind-trans asc x y (z ∷ ys) first all =
      (before_trans asc x y z first all.0, AllBehind-trans asc x y ys first all.1)

  pub IsSorted-IsOrdered : (asc : Bool) (xs : List ℕ) → IsSorted asc cmp xs → IsOrdered asc cmp xs
  IsSorted-IsOrdered asc [] h = tt
  IsSorted-IsOrdered asc (x ∷ []) h = (tt, tt)
  IsSorted-IsOrdered asc (x ∷ y ∷ xs) h =
      let rest = IsSorted-IsOrdered asc (y ∷ xs) h.1 in
      ((h.0, AllBehind-trans asc x y xs h.0 rest.0), rest)
