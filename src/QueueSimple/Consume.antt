-- ===== src/QueueSimple/Consume.antt =====
-- One call of threadLoop of the consumer, on a queue that carries values.
use tools_on_linux.Queue.Threads.System.{working}
use tools_on_linux.Queue.Popping.{pop_result, pop_events, pop_contents}
use tools_on_linux.Queue.Peeking.{peek_result}
use tools_on_linux.Queue.Contract.Pops.{pop-After, peek-After}
use tools_on_linux.Queue.Calls.{pop, peek}
use tools_on_linux.Queue.State.{signal, returned, q_ok, cond_put, Queue}
use tools_on_linux.Memory.{null, Ptr}
use tools_on_linux.Memory.Chain.{contents, Cells}
use tools_on_linux.Queue.Represents.{IsValid, After}
use tools_on_linux.QueueSimple.Carrying.{
  InUse, Values-put, Values, After-Carries, After-InUse, Carries,
}
use tools_on_linux.Prelude.{
  arith, ◌==◌, ◌⊎◌, get_elem?, ℕ, ◌≡◌, true, false, none, some, List, [], ◌∷◌, leb, if◌then◌else◌,
  not, refl, sym, ap, ◌∙◌, subst, if_true, if_false, Bool-cases, inl, inr,
}
use tools_on_linux.Prelude.Outcome.{ok}
use tools_on_linux.Prelude.Int.{pos}
use tools_on_linux.QueueSimple.Workers.{
  consume_seen, put_object, load_test, free_test, consume_popped, Test, max_cnt, consume_loop, Demo,
}

-- A peek at the front, and a pop.
pub peek_front :
    (q : Queue) (cs : Cells) (xs : List Ptr)
    → IsValid q cs
    → contents cs ≡ xs
    → (r : Queue) × (peek working (pos 0) q ≡ ok (peek_result (get_elem? xs 0)) r)
      × After q cs xs [] r
peek_front q cs xs v e =
    let (r, runs, after, unlocked) = peek-After working q cs (pos 0) v refl in
    (
      r,
      subst (λ ys. peek working (pos 0) q ≡ ok (peek_result (get_elem? ys 0)) r) e runs,
      subst (λ ys. After q cs ys [] r) e after,
    )

pop_front :
    (q : Queue) (cs : Cells) (p : Ptr) (ps : List Ptr)
    → IsValid q cs
    → contents cs ≡ p ∷ ps
    → (r : Queue) × (pop working null q ≡ ok (returned (q_ok, p)) r)
      × After q cs ps (signal cond_put ∷ []) r
pop_front q cs p ps v e =
    let (r, runs, after, unlocked) = pop-After working q cs null v refl in
    (
      r,
      runs ∙ ap (λ ys. ok (returned (pop_result ys)) r) e,
      subst (λ ys. After q cs (pop_contents ys) (pop_events ys) r) e after,
    )

-- On an empty queue it changes no value, and is called again.
pub consume_loop-empty :
    (d : Demo) → Carries d [] → (e : Demo) × (consume_loop d ≡ ok true e) × Carries e []
unfolding consume_loop consume_seen
consume_loop-empty d c = none_there (contents c.cells) refl c.values
  where
    none_there :
        (xs : List Ptr)
        → contents c.cells ≡ xs
        → Values d.objects xs []
        → (e : Demo) × (consume_loop d ≡ ok true e) × Carries e []
    none_there [] is_ values =
        let (r, runs, after) = peek_front d.queue c.cells [] c.valid is_ in
        (
          record d { queue = r },
          rw runs refl,
          After-Carries d.queue c.cells r d.objects [] c.in_use after tt,
        )
    none_there (p ∷ xs) is_ values = elim values [ ]

load_test-stored : (p : Ptr) (d : Demo) (t : Test) → d.objects p ≡ some t → load_test p d ≡ ok t d
unfolding load_test
load_test-stored p d t stored = rw (stored, load_test) refl

free_test-stored :
    (p : Ptr) (d : Demo) (t : Test)
    → d.objects p ≡ some t
    → free_test p d ≡ ok tt (record d { objects = put_object d.objects p none })
unfolding free_test
free_test-stored p d t stored = rw (stored, free_test) refl

-- The struct is freed unless it is the last one.
popped-runs :
    (p : Ptr) (d : Demo) (t : Test)
    → d.objects p ≡ some t
    → consume_popped (returned (q_ok, p)) d ≡ (
        if leb max_cnt t.value
        then ok false d
        else ok true (record d { objects = put_object d.objects p none }))
unfolding consume_popped
popped-runs p d t stored = elim (Bool-cases (leb max_cnt t.value)) [
  | inl last ↦ rw (load_test-stored p d t stored, last) refl
  | inr more ↦ rw (load_test-stored p d t stored, more, free_test-stored p d t stored) refl
]

-- A call that takes the first value: it goes on where that is less than the last one, and then has
-- freed the struct.
pub record Takes (d : Demo) (p : Ptr) (v : ℕ) (vs : List ℕ) : Type 0 where
  pub left : Demo
  pub runs : consume_loop d ≡ ok (not (leb max_cnt v)) left
  pub carries : Carries left vs
  pub gone : (leb max_cnt v ≡ true) ⊎ (left.objects p ≡ none)

pub consume_first :
    (d : Demo) (cs : Cells) (p : Ptr) (ps : List Ptr) (v : ℕ) (vs : List ℕ)
    → IsValid d.queue cs
    → InUse d.queue
    → contents cs ≡ p ∷ ps
    → Values d.objects (p ∷ ps) (v ∷ vs)
    → Takes d p v vs
unfolding consume_loop consume_seen
consume_first d cs p ps v vs valid in_use is_ ((t, stored, is_v), once, rest) =
    let (r, peeked, after) = peek_front d.queue cs (p ∷ ps) valid is_ in
    let seen : Demo = record d { queue = r } in
    let (s, popped, after') = pop_front r after.cells p ps after.valid after.is_spec in
    let left : Demo = record d { queue = s } in
    let freed : Demo = record left { objects = put_object d.objects p none } in
    let used = After-InUse d.queue cs r in_use after in
    let runs : consume_loop d ≡ (if leb max_cnt t.value then ok false left else ok true freed) =
      rw (peeked, load_test-stored p seen t stored, popped) (popped-runs p left t stored) in
    elim (Bool-cases (leb max_cnt v)) [
      | inl last ↦ record {
        left = left;
        runs =
            runs
            ∙ if_true _ _ _ (ap (leb max_cnt) is_v ∙ last)
            ∙ ap (λ b. ok (not b) left) (sym last);
        carries = After-Carries r after.cells s d.objects vs used after' rest;
        gone = inl last;
      }
      | inr more ↦ record {
        left = freed;
        runs =
            runs
            ∙ if_false _ _ _ (ap (leb max_cnt) is_v ∙ more)
            ∙ ap (λ b. ok (not b) freed) (sym more);
        carries =
            After-Carries r after.cells s (put_object d.objects p none) vs used after'
              (Values-put d.objects p none ps vs once rest);
        gone = inr (if_true (p == p) none (d.objects p) (ground arith));
      }
    ]

-- It takes the first value, and goes on where that is less than the last one.
pub consume_loop-Carries :
    (d : Demo) (v : ℕ) (vs : List ℕ)
    → Carries d (v ∷ vs)
    → (e : Demo) × (consume_loop d ≡ ok (not (leb max_cnt v)) e) × Carries e vs
consume_loop-Carries d v vs c = taken (contents c.cells) refl c.values
  where
    taken :
        (xs : List Ptr)
        → contents c.cells ≡ xs
        → Values d.objects xs (v ∷ vs)
        → (e : Demo) × (consume_loop d ≡ ok (not (leb max_cnt v)) e) × Carries e vs
    taken [] is_ values = elim values [ ]
    taken (p ∷ ps) is_ values =
        let takes = consume_first d c.cells p ps v vs c.valid c.in_use is_ values in
        (takes.left, takes.runs, takes.carries)
