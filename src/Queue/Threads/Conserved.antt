-- ===== src/Queue/Threads/Conserved.antt =====
-- The abstract queue and the elements: what a call adds to them and takes from them.
use tools_on_linux.Queue.Pushing.{push_code}
use tools_on_linux.Queue.Threads.Answers.{answer}
use tools_on_linux.Queue.Represents.{IsValid}
use tools_on_linux.Queue.Threads.System.{
  pushes, pops, peeks, flushes, counts, asks_empty, asks_allowed, Request,
}
use tools_on_linux.Queue.Threads.Steps.{walk, contents_of, after_call, History}
use tools_on_linux.Memory.{Heap}
use tools_on_linux.Memory.Chain.{first_ptr, contents, Chain, Cells}
use tools_on_linux.Queue.Order.{inserted_as, inserted, insert_sorted, insert_behind}
use tools_on_linux.Queue.Push.{goes_first, goes_between}
use tools_on_linux.Queue.State.{is_ok, Queue, Compare}
use mathlib.Core.List.Perm
use mathlib.Core.List.{Perm, perm_append_singleton}
use tools_on_linux.Prelude.{
  Option, ℕ, ◌≡◌, Bool, true, false, none, some, List, [], ◌∷◌, ◌++◌, refl, ◌∙◌, ap, append_assoc,
  append-nil, Bool-cases, inl, inr, length, ◌&&◌, ◌==◌,
}

insert_behind-perm :
    (asc : Bool) (cmp : Compare) (e s : ℕ) (xs : List ℕ)
    → Perm (insert_behind asc cmp e s xs) (e ∷ s ∷ xs)
unfolding insert_behind
insert_behind-perm asc cmp e s [] = Perm.swap e s []
insert_behind-perm asc cmp e s (t ∷ xs) = elim (Bool-cases (goes_between asc cmp s e t)) [
  | inl now ↦ rw now (Perm.swap e s (t ∷ xs))
  | inr on ↦
      rw on (Perm.trans (Perm.cons s (insert_behind-perm asc cmp e t xs)) (Perm.swap e s (t ∷ xs)))
]

-- A push adds its element, for every comparator.
inserted-perm : (q : Queue) (e : ℕ) (xs : List ℕ) → Perm (inserted q e xs) (xs ++ e ∷ [])
unfolding insert_sorted inserted_as
inserted-perm q e xs = by_mode q.sort q.ascending_order q.cmp_ele_fun
  where
    sorted : (asc : Bool) (cmp : Compare) (xs : List ℕ) → Perm (insert_sorted asc cmp e xs) (e ∷ xs)
    sorted asc cmp [] = Perm.refl (e ∷ [])
    sorted asc cmp (x ∷ xs) = elim (Bool-cases (goes_first asc cmp x e)) [
      | inl first ↦ rw first (Perm.refl (e ∷ x ∷ xs))
      | inr on ↦ rw on (insert_behind-perm asc cmp e x xs)
    ]

    by_mode :
        (sort asc : Bool) (cmp : Option Compare)
        → Perm (inserted_as sort asc cmp e xs) (xs ++ e ∷ [])
    by_mode true asc (some cmp) =
        Perm.trans (sorted asc cmp xs) (Perm.symm (perm_append_singleton e xs))
    by_mode true asc none = Perm.refl (xs ++ e ∷ [])
    by_mode false asc cmp = Perm.refl (xs ++ e ∷ [])

-- The same elements, and in the same order without a comparator.
pub record Kept (sort : Bool) (xs ys : List ℕ) : Type 0 where
  pub elements : Perm xs ys
  pub in_order : sort ≡ false → xs ≡ ys

push-Kept :
    (q : Queue) (e : ℕ) (old pushed removed xs : List ℕ)
    → Kept q.sort (old ++ pushed) (removed ++ xs)
    → Kept q.sort (old ++ (pushed ++ e ∷ [])) (removed ++ inserted q e xs)
unfolding inserted_as
push-Kept q e old pushed removed xs k = record {
  elements = rw (← append_assoc) (
      Perm.trans (Perm.append_right (e ∷ []) k.elements)
        (rw append_assoc (Perm.append_left removed (Perm.symm (inserted-perm q e xs)))));
  in_order = λ plain.
      rw (plain, ← append_assoc old)
        (ap (λ l. l ++ e ∷ []) (k.in_order plain) ∙ rw append_assoc refl);
}

pop-Kept :
    (sort : Bool) (x : ℕ) (ys removed xs : List ℕ)
    → Kept sort ys (removed ++ x ∷ xs)
    → Kept sort ys ((removed ++ x ∷ []) ++ xs)
pop-Kept sort x ys removed xs k = rw append_assoc k

flush-Kept :
    (sort : Bool) (ys removed xs : List ℕ)
    → Kept sort ys (removed ++ xs)
    → Kept sort ys ((removed ++ xs) ++ [])
flush-Kept sort ys removed xs k = rw append-nil k

-- The abstract queue keeps the elements.
pub answer-Kept :
    (req : Request) (q : Queue) (old xs : List ℕ) (h : History)
    → contents_of q ≡ xs
    → Kept q.sort (old ++ h.pushed) (h.removed ++ xs)
    → let a = answer req q xs in
      let g = after_call req q a.reply h in Kept q.sort (old ++ g.pushed) (g.removed ++ a.contents)
unfolding answer
answer-Kept (pushes w new ele) q old xs h walked k =
    elim (Bool-cases (w && q.allowed_new_data && q.used_element_cnts == q.capability)) [
      | inl sleeps ↦ rw sleeps k
      | inr goes ↦ elim (Bool-cases (is_ok (push_code q new))) [
        | inl stored ↦ rw (goes, stored) (push-Kept q ele old h.pushed h.removed xs k)
        | inr refused ↦ rw (goes, refused) k
      ]
    ]
answer-Kept (pops true) q old [] h walked k = elim (Bool-cases q.allowed_new_data) [
  | inl e ↦ rw e k
  | inr e ↦ rw e k
]
answer-Kept (pops false) q old [] h walked k = k
answer-Kept (pops w) q old (x ∷ xs) h walked k = pop-Kept q.sort x (old ++ h.pushed) h.removed xs k
answer-Kept (peeks i) q old xs h walked k = k
answer-Kept (flushes fcb) q old xs h walked k =
    rw walked (flush-Kept q.sort (old ++ h.pushed) h.removed xs k)
answer-Kept counts q old xs h walked k = k
answer-Kept asks_empty q old xs h walked k = k
answer-Kept asks_allowed q old xs h walked k = k

walk-contents :
    (h : Heap) (cs : Cells) → Chain h cs → walk h (length cs) (first_ptr cs) ≡ contents cs
unfolding walk
walk-contents h [] ch = refl
walk-contents h ((p, d) ∷ cs) ch = rw ch.1 (ap (◌∷◌ d) (walk-contents h cs ch.3))

pub contents_of-contents : (q : Queue) (cs : Cells) → IsValid q cs → contents_of q ≡ contents cs
contents_of-contents q cs v =
    ap (λ n. walk q.heap n q.used_first_element) v.holds.count
    ∙ ap (walk q.heap (length cs)) v.holds.first
    ∙ walk-contents q.heap cs v.holds.chain
