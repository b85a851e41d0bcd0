-- ===== src/Queue/Sorting.antt =====
-- The order that a sorted queue keeps: the comparator's contract and what a push does to it.
use tools_on_linux.Queue.State.{Queue, Compare}
use mathlib.Core.List.Perm
use mathlib.Core.List.{Perm}
use tools_on_linux.Prelude.{
  ap, List, ◌≡◌, Bool, ℕ, some, [], ◌∷◌, refl, true, false, ◌&&◌, inl, inr, arith, ◌∙◌,
  if◌then◌else◌, Bool-cases,
}
use tools_on_linux.Prelude.Int.{pos, leb_ℤ}
use tools_on_linux.Queue.Order.{inserted, insert_behind, insert_sorted, inserted_as}
use tools_on_linux.Queue.Push.{goes_first, goes_between}

-- `a` may stand before `b` in a queue of this direction.
abbrev pub before : Bool → Compare → ℕ → ℕ → Bool
before ascending cmp a b = if ascending then leb_ℤ (cmp a b) (pos 0) else leb_ℤ (pos 0) (cmp a b)

-- What Queue.h asks of the comparator: the sign tells which of two elements is the smaller.
pub record IsComparator (cmp : Compare) : Type 0 where
  pub flip : (a b : ℕ) → leb_ℤ (cmp a b) (pos 0) ≡ leb_ℤ (pos 0) (cmp b a)
  pub trans :
      (a b c : ℕ)
      → leb_ℤ (cmp a b) (pos 0) ≡ true
      → leb_ℤ (cmp b c) (pos 0) ≡ true
      → leb_ℤ (cmp a c) (pos 0) ≡ true

-- Insertion before the first element that may stand behind the new one.
abbrev pub ordered_insert : Bool → Compare → ℕ → List ℕ → List ℕ
ordered_insert ascending cmp e [] = e ∷ []
ordered_insert ascending cmp e (x ∷ xs) =
    if before ascending cmp e x then e ∷ x ∷ xs else x ∷ ordered_insert ascending cmp e xs

abbrev pub IsSorted : Bool → Compare → List ℕ → Type 0
IsSorted ascending cmp [] = Unit {0}
IsSorted ascending cmp (x ∷ []) = Unit {0}
IsSorted ascending cmp (x ∷ y ∷ xs) =
    (before ascending cmp x y ≡ true) × IsSorted ascending cmp (y ∷ xs)

module _ (cmp : Compare) (law : IsComparator cmp) where
  goes_first-before : (asc : Bool) (s e : ℕ) → goes_first asc cmp s e ≡ before asc cmp e s
  unfolding goes_first
  goes_first-before true s e = ground (arith, law.flip e s)
  goes_first-before false s e = ground (arith, law.flip s e)

  goes_between-before :
      (asc : Bool) (s e t : ℕ)
      → goes_between asc cmp s e t ≡ (before asc cmp s e && before asc cmp e t)
  unfolding goes_between
  goes_between-before true s e t = ground arith
  goes_between-before false s e t = refl

  before-total : (asc : Bool) (a b : ℕ) → before asc cmp a b ≡ false → before asc cmp b a ≡ true
  before-total true a b h = ground (arith, law.flip a b, law.flip b a)
  before-total false a b h = ground (arith, law.flip a b, law.flip b a)

  insert_behind-ordered :
      (asc : Bool) (e s : ℕ) (xs : List ℕ)
      → before asc cmp e s ≡ false
      → insert_behind asc cmp e s xs ≡ ordered_insert asc cmp e (s ∷ xs)
  unfolding insert_behind
  insert_behind-ordered asc e s [] h = rw h
  insert_behind-ordered asc e s (t ∷ xs) h =
      rw (h, goes_between-before asc s e t, before-total asc e s h)
        (elim (Bool-cases (before asc cmp e t)) [
          | inl here ↦ rw here
          | inr on ↦ rw on (ap (◌∷◌ s) (insert_behind-ordered asc e t xs on ∙ rw on))
        ])

  -- The two-step search on lists is the plain ordered insertion.
  pub insert_sorted-ordered_insert :
      (asc : Bool) (e : ℕ) (xs : List ℕ) → insert_sorted asc cmp e xs ≡ ordered_insert asc cmp e xs
  unfolding insert_sorted
  insert_sorted-ordered_insert asc e [] = refl
  insert_sorted-ordered_insert asc e (x ∷ xs) =
      rw (goes_first-before asc x e) (elim (Bool-cases (before asc cmp e x)) [
        | inl here ↦ rw here
        | inr on ↦ rw on (insert_behind-ordered asc e x xs on ∙ rw on)
      ])

  behind-IsSorted :
      (asc : Bool) (e x y : ℕ) (xs : List ℕ)
      → before asc cmp e x ≡ false
      → before asc cmp x y ≡ true
      → IsSorted asc cmp (ordered_insert asc cmp e (y ∷ xs))
      → IsSorted asc cmp (x ∷ ordered_insert asc cmp e (y ∷ xs))
  behind-IsSorted asc e x y xs on first rest = elim (Bool-cases (before asc cmp e y)) [
    | inl here ↦ rw here (before-total asc e x on, rw here at rest)
    | inr later ↦ rw later (first, rw later at rest)
  ]

  pub ordered_insert-IsSorted :
      (asc : Bool) (e : ℕ) (xs : List ℕ)
      → IsSorted asc cmp xs
      → IsSorted asc cmp (ordered_insert asc cmp e xs)
  ordered_insert-IsSorted asc e [] h = tt
  ordered_insert-IsSorted asc e (x ∷ []) h = elim (Bool-cases (before asc cmp e x)) [
    | inl yes_ ↦ rw yes_ (yes_, tt)
    | inr no_ ↦ rw no_ (before-total asc e x no_, tt)
  ]
  ordered_insert-IsSorted asc e (x ∷ y ∷ xs) h =
      let rest = ordered_insert-IsSorted asc e (y ∷ xs) h.1 in
      elim (Bool-cases (before asc cmp e x)) [
        | inl here ↦ rw here (here, h)
        | inr on ↦ rw on (behind-IsSorted asc e x y xs on h.0 rest)
      ]

ordered_insert-perm :
    (asc : Bool) (cmp : Compare) (e : ℕ) (xs : List ℕ) → Perm (ordered_insert asc cmp e xs) (e ∷ xs)
ordered_insert-perm asc cmp e [] = Perm.refl (e ∷ [])
ordered_insert-perm asc cmp e (x ∷ xs) = elim (Bool-cases (before asc cmp e x)) [
  | inl here ↦ rw here (Perm.refl (e ∷ x ∷ xs))
  | inr on ↦ rw on (Perm.trans (Perm.cons x (ordered_insert-perm asc cmp e xs)) (Perm.swap e x xs))
]

-- The list insertion of a sorted queue keeps the order and adds exactly the new element, for any
-- comparator that keeps to its contract.
pub inserted-IsSorted :
    (q : Queue) (cmp : Compare) (ele : ℕ) (xs : List ℕ)
    → IsComparator cmp
    → q.sort ≡ true
    → q.cmp_ele_fun ≡ some cmp
    → IsSorted q.ascending_order cmp xs
    → IsSorted q.ascending_order cmp (inserted q ele xs) × Perm (inserted q ele xs) (ele ∷ xs)
unfolding inserted_as
inserted-IsSorted q cmp ele xs law on has_cmp h =
    rw (on, has_cmp, insert_sorted-ordered_insert cmp law q.ascending_order ele xs)
      (
        ordered_insert-IsSorted cmp law q.ascending_order ele xs h,
        ordered_insert-perm q.ascending_order cmp ele xs,
      )
