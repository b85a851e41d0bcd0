-- ===== src/Queue/Flushing.antt =====
-- What _flushElements does: every element is handed to the callback and freed.
use tools_on_linux.Prelude.{
  append_assoc, subst, ◌==◌, if_true, ap, sym, ◌+◌, zero, suc, none, some, [], ◌∷◌, refl, true,
  false, inl, inr,
}
use tools_on_linux.Memory.Chain.{
  Chain-write, write-here, write-other, contents, first_ptr, Chain, has, Cells,
}
use tools_on_linux.Queue.State.{M, flushed, q_ok, ok, Event, Queue}
use tools_on_linux.Memory.{null, write, Ptr, Heap}
use tools_on_linux.Queue.Flush.{call_back, flush_loop, flush_elements}
use tools_on_linux.Prelude.{
  inr, inl, refl, suc, Bool-cases, ◌∙◌, map, ◌<◌, append-nil, length, ◌++◌, ◌∷◌, some, true, none,
  [], false, ◌≡◌, List, Option, ℕ, arith,
}
use tools_on_linux.Queue.Represents.{free-ok, load-ok, not_null, Points, IsValid, After}

-- The calls of the callback, first element first.
abbrev pub flush_events : Option ℕ → List ℕ → List Event
flush_events none xs = []
flush_events (some userdata) xs = map (flushed userdata) xs

-- Memory after a flush: the cells are freed, the rest stays.
record Freed (h : Heap) (cs : Cells) (g : Heap) : Type 0 where
  frame : (a : Ptr) → has a cs ≡ false → g a ≡ h a
  freed : (a : Ptr) → has a cs ≡ true → g a ≡ none

Freed-cons :
    (h : Heap) (p : Ptr) (d : ℕ) (cs : Cells) (g : Heap)
    → Freed (write h p none) cs g
    → Freed h ((p, d) ∷ cs) g
Freed-cons h p d cs g f = record {
  frame = λ a out. f.frame a (ground arith) ∙ write-other h p none a (ground arith);
  freed = λ a inside. elim (Bool-cases (has a cs)) [
    | inl later ↦ f.freed a later
    | inr gone ↦ f.frame a gone ∙ write-here h p none a (ground arith)
  ];
}

flush_events-nil : (fcb : Option ℕ) → flush_events fcb [] ≡ []
flush_events-nil none = refl
flush_events-nil (some u) = refl

call_back-runs :
    (fcb : Option ℕ) (d : ℕ) (xs : List ℕ) (q : Queue)
    → (evs : List Event) × (call_back fcb d q ≡ ok tt (record q { events = q.events ++ evs }))
      × (flush_events fcb (d ∷ xs) ≡ evs ++ flush_events fcb xs)
call_back-runs none d xs q = ([], rw append-nil, refl)
call_back-runs (some u) d xs q = (flushed u d ∷ [], refl, refl)

-- The loop empties the chain, whatever the other pointers say.
flush_loop-runs :
    (fcb : Option ℕ) (k : ℕ) (q : Queue) (cs : Cells)
    → Chain q.heap cs
    → q.used_first_element ≡ first_ptr cs
    → length cs < k
    → (g : Heap) × (flush_loop fcb k q
        ≡ ok tt (record q {
          used_first_element = null;
          heap = g;
          events = q.events ++ flush_events fcb (contents cs);
        }))
      × Freed q.heap cs g
unfolding flush_loop
flush_loop-runs fcb zero q cs ch first fuel = absurd (omega arith)
flush_loop-runs fcb (suc k) q [] ch first fuel = (
  q.heap,
  ap (λ (m : M (Unit {0})). m q) (if_true (q.used_first_element == null) _ _ (ground arith))
      ∙ (λ i. ok tt (record q { used_first_element = first i; events = no_events i })),
  record { frame = λ a _. refl; freed = λ a e. cc },
)
  where
    no_events : q.events ≡ q.events ++ flush_events fcb []
    no_events = rw (flush_events-nil fcb) (sym (append-nil q.events))
flush_loop-runs fcb (suc k) q ((p, d) ∷ cs) ch first fuel =
    let (evs, called, split) = call_back-runs fcb d (contents cs) moved in
    let (g, runs, freed) =
      flush_loop-runs fcb k (freed_head evs) cs
        (Chain-write q.heap q.used_first_element none cs ch.3 (ground arith)) refl (omega arith) in
    (
      g,
      rw (not_null head_at, load-ok head_at, called, free-ok (behind evs))
          (runs ∙ (λ i. ok tt (record (freed_head evs) {
            used_first_element = null;
            heap = g;
            events =
                (append_assoc q.events evs (flush_events fcb (contents cs))
                    ∙ ap (◌++◌ q.events) (sym split))
                  i;
          }))),
      Freed-cons q.heap p d cs g (subst (λ a. Freed (write q.heap a none) cs g) first freed),
    )
  where
    head_at : Points q q.used_first_element d (first_ptr cs)
    head_at =
        subst (λ a. Points q a d (first_ptr cs)) (sym first) (record { ne_null = ch.0; at = ch.1 })

    moved : Queue
    moved = record q { used_first_element = first_ptr cs }

    freed_head : List Event → Queue
    freed_head evs = record moved {
      heap = write q.heap q.used_first_element none;
      events = q.events ++ evs;
    }

    behind :
        (evs : List Event)
        → Points (record moved { events = q.events ++ evs }) q.used_first_element d (first_ptr cs)
    behind evs = record { ne_null = head_at.ne_null; at = head_at.at }

-- A flush leaves the queue empty, and wakes nobody.
pub flush_elements-After :
    (fcb : Option ℕ) (q : Queue) (cs : Cells)
    → IsValid q cs
    → (r : Queue) × (flush_elements fcb q ≡ ok q_ok r)
      × After q cs [] (flush_events fcb (contents cs)) r
      × (r.locked ≡ q.locked)
unfolding flush_elements
flush_elements-After fcb q cs v =
    let (g, runs, f) =
      flush_loop-runs fcb (q.used_element_cnts + 1) q cs v.holds.chain v.holds.first
        (omega (arith, v.holds.count)) in
    (
      record q {
        used_first_element = null;
        used_last_element = null;
        used_element_cnts = 0;
        heap = g;
        events = q.events ++ flush_events fcb (contents cs);
      },
      rw runs,
      record {
        cells = [];
        valid = record {
          holds = record { chain = tt; first = refl; last = refl; count = refl };
          bounded = omega arith;
          small = v.small;
          ordered = v.ordered;
        };
        is_spec = refl;
        events = refl;
        capability = refl;
        allowed = refl;
        sort = refl;
        ascending = refl;
        cmp = refl;
        frame = λ a _. f.frame a;
        freed = λ a _. f.freed a;
      },
      refl,
    )
