-- ===== src/Queue/Order.antt =====
-- The order of insertion as a function on lists: what _pushElement does to the contents.
use tools_on_linux.Prelude.{
  ℕ, Bool, none, some, List, [], ◌∷◌, ◌++◌, if◌then◌else◌, true, false, Option, length,
  length-append, suc, ◌≡◌, refl, arith,
}
use tools_on_linux.Queue.State.{Queue, Compare}
use tools_on_linux.Queue.Push.{goes_first, goes_between}

module _ (ascending : Bool) (cmp : Compare) (ele : ℕ) where
  -- Behind `s`, between the first two neighbours that the tests accept, or at the end.
  unfoldable pub insert_behind : ℕ → List ℕ → List ℕ
  insert_behind s [] = s ∷ ele ∷ []
  insert_behind s (t ∷ rest) =
      if goes_between ascending cmp s ele t then s ∷ ele ∷ t ∷ rest else s ∷ insert_behind t rest

  unfoldable pub insert_sorted : List ℕ → List ℕ
  insert_sorted [] = ele ∷ []
  insert_sorted (s ∷ rest) =
      if goes_first ascending cmp s ele then ele ∷ s ∷ rest else insert_behind s rest

-- The contents after a push, by the mode of the queue.
unfoldable pub inserted_as : Bool → Bool → Option Compare → ℕ → List ℕ → List ℕ
inserted_as true ascending (some cmp) ele xs = insert_sorted ascending cmp ele xs
inserted_as _ ascending cmp ele xs = xs ++ ele ∷ []

abbrev pub inserted : Queue → ℕ → List ℕ → List ℕ
inserted q = inserted_as q.sort q.ascending_order q.cmp_ele_fun

length-insert_behind :
    (asc : Bool) (cmp : Compare) (e s : ℕ) (xs : List ℕ)
    → length (insert_behind asc cmp e s xs) ≡ suc (suc (length xs))
unfolding insert_behind
length-insert_behind asc cmp e s [] = refl
length-insert_behind asc cmp e s (t ∷ xs) = ground (arith, length-insert_behind asc cmp e t xs)

length-insert_sorted :
    (asc : Bool) (cmp : Compare) (e : ℕ) (xs : List ℕ)
    → length (insert_sorted asc cmp e xs) ≡ suc (length xs)
unfolding insert_sorted
length-insert_sorted asc cmp e [] = refl
length-insert_sorted asc cmp e (x ∷ xs) = ground (arith, length-insert_behind asc cmp e x xs)

-- A push adds one element.
pub length-inserted_as :
    (sort asc : Bool) (cmp : Option Compare) (e : ℕ) (xs : List ℕ)
    → length (inserted_as sort asc cmp e xs) ≡ suc (length xs)
unfolding inserted_as
length-inserted_as true asc (some cmp) e xs = length-insert_sorted asc cmp e xs
length-inserted_as true asc none e xs = omega (arith, length-append xs (e ∷ []))
length-inserted_as false asc cmp e xs = omega (arith, length-append xs (e ∷ []))
