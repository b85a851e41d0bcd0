-- ===== src/Memory/Chain.antt =====
-- What a chain of `next` links stands for: the address and the content of each element, in order.
use mathlib.Core.Path.{fun_ext}
use tools_on_linux.Prelude.{
  true, ap, ==_true→eq, ℕ, Bool, false, Option, none, some, ◌==◌, ◌||◌, List, [], ◌∷◌, ◌++◌, map,
  ◌≡◌, ◌≢◌, refl, ◌∙◌, arith,
}
use tools_on_linux.Memory.{Ptr, null, Element, element, Heap, write}

abbrev pub Cells : Type 0
Cells = List (Ptr × ℕ)

abbrev pub contents : Cells → List ℕ
contents = map (λ c. c.1)

-- The address of the first cell, and of the last.
abbrev pub first_ptr : Cells → Ptr
first_ptr [] = null
first_ptr ((p, _) ∷ cs) = p

abbrev pub last_from : Ptr → Cells → Ptr
last_from d [] = d
last_from d ((p, _) ∷ cs) = last_from p cs

abbrev pub last_ptr : Cells → Ptr
last_ptr = last_from null

abbrev pub has : Ptr → Cells → Bool
has a [] = false
has a ((p, _) ∷ cs) = (a == p) || has a cs

-- Each cell is allocated, at an address of its own, and links to the next one.
abbrev pub Chain : Heap → Cells → Type 0
Chain h [] = Unit {0}
Chain h ((p, d) ∷ cs) =
    (p ≢ null) × (h p ≡ some (element d (first_ptr cs))) × (has p cs ≡ false) × Chain h cs

pub has-append : (a : Ptr) (xs ys : Cells) → has a (xs ++ ys) ≡ (has a xs || has a ys)
has-append a [] ys = refl
has-append a ((p, d) ∷ xs) ys = ground (arith, has-append a xs ys)

-- A chain survives a write beside it.
pub Chain-write :
    (h : Heap) (p : Ptr) (c : Option Element) (cs : Cells)
    → Chain h cs
    → has p cs ≡ false
    → Chain (write h p c) cs
unfolding write
Chain-write h p c [] ch out = tt
Chain-write h p c ((a, d) ∷ cs) ch out = ground (arith, Chain-write h p c cs ch.3)

-- An address with nothing allocated is in no chain.
pub has-fresh : (h : Heap) (p : Ptr) (cs : Cells) → Chain h cs → h p ≡ none → has p cs ≡ false
has-fresh h p [] ch fresh = refl
has-fresh h p ((a, d) ∷ cs) ch fresh = ground (arith, has-fresh h p cs ch.3 fresh)

-- Linking a new element behind the element at `s`.
abbrev pub splice : Heap → Ptr → ℕ → Ptr → ℕ → Ptr → Heap
splice h s d new e t = write (write h s (some (element d new))) new (some (element e t))

pub first_ptr-splice :
    (pre : Cells) (s : Ptr) (d : ℕ) (post : Cells) (new : Ptr) (e : ℕ)
    → first_ptr (pre ++ (s, d) ∷ (new, e) ∷ post) ≡ first_ptr (pre ++ (s, d) ∷ post)
first_ptr-splice [] s d post new e = refl
first_ptr-splice ((p, c) ∷ pre) s d post new e = refl

-- Reading back after the two writes of a splice.
module _ (h : Heap) (s : Ptr) (d : ℕ) (new : Ptr) (e : ℕ) (t : Ptr) where
  pub splice-new : splice h s d new e t new ≡ some (element e t)
  unfolding write
  splice-new = ground arith

  pub splice-prev : (new == s) ≡ false → splice h s d new e t s ≡ some (element d new)
  unfolding write
  splice-prev apart = ground arith

  pub splice-other :
      (p : Ptr) → (p == s) ≡ false → (new == p) ≡ false → splice h s d new e t p ≡ h p
  unfolding write
  splice-other p apart other = ground arith

pub Chain-splice :
    (h : Heap) (pre : Cells) (s : Ptr) (d : ℕ) (post : Cells) (new : Ptr) (e : ℕ)
    → Chain h (pre ++ (s, d) ∷ post)
    → new ≢ null
    → has new (pre ++ (s, d) ∷ post) ≡ false
    → Chain (splice h s d new e (first_ptr post)) (pre ++ (s, d) ∷ (new, e) ∷ post)
Chain-splice h [] s d post new e (p, q, r, ch) ok fresh = (
  p,
  splice-prev h s d new e (first_ptr post) (ground arith),
  ground arith,
  (
    ok,
    splice-new h s d new e (first_ptr post),
    ground arith,
    Chain-write (write h s (some (element d new))) new (some (element e (first_ptr post))) post
        (Chain-write h s (some (element d new)) post ch r) (ground arith),
  ),
)
Chain-splice h ((p, c) ∷ pre) s d post new e (ok_p, at_p, out, ch) ok fresh = (
  ok_p,
  rw first_ptr-splice (
      splice-other h s d new e (first_ptr post) p (ground (arith, has-append p pre ((s, d) ∷ post)))
        (ground arith)
      ∙ at_p),
  ground (arith, has-append p pre ((s, d) ∷ post), has-append p pre ((s, d) ∷ (new, e) ∷ post)),
  Chain-splice h pre s d post new e ch ok (ground arith),
)

pub Chain-drop : (h : Heap) (pre cs : Cells) → Chain h (pre ++ cs) → Chain h cs
Chain-drop h [] cs ch = ch
Chain-drop h ((p, d) ∷ pre) cs ch = Chain-drop h pre cs ch.3

pub last_from-append :
    (x : Ptr) (pre : Cells) (s : Ptr) (d : ℕ) (post : Cells)
    → last_from x (pre ++ (s, d) ∷ post) ≡ last_from s post
last_from-append x [] s d post = refl
last_from-append x ((p, c) ∷ pre) s d post = last_from-append p pre s d post

pub has-splice :
    (a : Ptr) (pre : Cells) (s : Ptr) (d : ℕ) (post : Cells) (new : Ptr) (e : ℕ)
    → has a (pre ++ (s, d) ∷ (new, e) ∷ post) ≡ false
    → (a == s) ≡ false
has-splice a pre s d post new e out = ground (arith, has-append a pre ((s, d) ∷ (new, e) ∷ post))

pub write-other :
    (h : Heap) (p : Ptr) (c : Option Element) (a : Ptr) → (a == p) ≡ false → write h p c a ≡ h a
unfolding write
write-other h p c a apart = ground arith

pub write-here :
    (h : Heap) (p : Ptr) (c : Option Element) (a : Ptr) → (a == p) ≡ true → write h p c a ≡ c
unfolding write
write-here h p c a e = ground arith

-- Writing what is there changes nothing.
pub write_self : (h : Heap) (p : Ptr) (c : Option Element) → h p ≡ c → write h p c ≡ h
unfolding write
write_self h p c e = fun_ext λ a. ground (arith, ==_true→eq a p)

-- The last cell of a list that is not empty.
pub split_last :
    (p : Ptr) (c : ℕ) (cs : Cells)
    → (pre : Cells) × (s : Ptr) × (d : ℕ) × ((p, c) ∷ cs ≡ pre ++ (s, d) ∷ [])
split_last p c [] = ([], p, c, refl)
split_last p c ((q, b) ∷ cs) =
    let (pre, s, d, e) = split_last q b cs in ((p, c) ∷ pre, s, d, ap (◌∷◌ (p, c)) e)

-- The last cell of a chain is at an address that is not NULL.
pub last_from-ne_null :
    (h : Heap) (p : Ptr) (cs : Cells) → p ≢ null → Chain h cs → last_from p cs ≢ null
last_from-ne_null h p [] ne ch = ne
last_from-ne_null h p ((q, d) ∷ cs) ne ch = last_from-ne_null h q cs ch.0 ch.3
