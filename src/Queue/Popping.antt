-- ===== src/Queue/Popping.antt =====
-- What _popElement does without a comparator, as every caller uses it.
use tools_on_linux.Prelude.Int.{ℤ}
use tools_on_linux.Memory.Chain.{
  write-other, Chain-write, Chain, last_from, write-here, contents, last_ptr, first_ptr, Cells,
}
use tools_on_linux.Queue.State.{
  Reply, M, returned, pure, q_ok, modify, ok, cond_put, q_err_num_elements, signal, Event, Queue,
}
use tools_on_linux.Queue.Pop.{find_match, pop_take, take_first, pop_element}
use tools_on_linux.Memory.{Ptr, null, write}
use tools_on_linux.Prelude.{
  ◌∙◌, refl, true, if_false, if_true, ne→==_false, ◌++◌, ap, ◌%◌, ◌-◌, ◌^◌, ◌+◌, [], sym, ◌==◌, ◌≡◌,
  subst, none, false, if◌then◌else◌, ◌∷◌, List, ℕ, arith,
}
use tools_on_linux.Queue.Represents.{After-same, not_null, free-ok, load-ok, Points, IsValid, After}

-- What a pop gives for the contents, and what it leaves and tells.
abbrev pub pop_result : List ℕ → ℤ × ℕ
pop_result [] = (q_err_num_elements, null)
pop_result (x ∷ xs) = (q_ok, x)

abbrev pub pop_contents : List ℕ → List ℕ
pop_contents [] = []
pop_contents (x ∷ xs) = xs

abbrev pub pop_events : List ℕ → List Event
pop_events [] = []
pop_events (x ∷ xs) = signal cond_put ∷ []

module _ (q : Queue) (p : Ptr) (d : ℕ) (cs : Cells) (v : IsValid q ((p, d) ∷ cs)) where
  head_at : Points q q.used_first_element d (first_ptr cs)
  head_at =
      subst (λ a. Points q a d (first_ptr cs)) (sym v.holds.first)
        (record { ne_null = v.holds.chain.0; at = v.holds.chain.1 })

  -- The object behind the head.
  abbrev popped : Queue
  popped = record q {
    used_first_element = first_ptr cs;
    used_last_element = last_ptr cs;
    used_element_cnts = (q.used_element_cnts + 2 ^ 32 - 1) % 2 ^ 32;
    heap = write q.heap q.used_first_element none;
  }

  -- `take_first` up to the counter, and the write of the last pointer.
  fixed_last :
      (if first_ptr cs == null
          then modify (λ q. record q { used_last_element = null })
          else pure tt)
        (record q {
          used_first_element = first_ptr cs;
          used_element_cnts = (q.used_element_cnts + 2 ^ 32 - 1) % 2 ^ 32;
        })
      ≡ ok tt (record popped { heap = q.heap })
  fixed_last = last_of cs v.holds.last v.holds.chain.3
    where
      last_of :
          (cs : Cells)
          → q.used_last_element ≡ last_from p cs
          → Chain q.heap cs
          → (if first_ptr cs == null
                then modify (λ q. record q { used_last_element = null })
                else pure tt)
              (record q {
                used_first_element = first_ptr cs;
                used_element_cnts = (q.used_element_cnts + 2 ^ 32 - 1) % 2 ^ 32;
              })
            ≡ ok tt (record q {
              used_first_element = first_ptr cs;
              used_last_element = last_ptr cs;
              used_element_cnts = (q.used_element_cnts + 2 ^ 32 - 1) % 2 ^ 32;
            })
      last_of [] e ch = refl
      last_of ((t, c) ∷ cs) e ch = rw (ne→==_false t null ch.0, ← e)

  take_first-runs : take_first q.used_first_element q ≡ ok d popped
  unfolding take_first
  take_first-runs = rw (load-ok head_at, fixed_last, free-ok behind)
    where
      behind : Points (record popped { heap = q.heap }) q.used_first_element d (first_ptr cs)
      behind = record { ne_null = head_at.ne_null; at = head_at.at }

  pop_take-After :
      (r : Queue) × (pop_take none null q ≡ ok (returned (q_ok, d)) r)
      × After q ((p, d) ∷ cs) (contents cs) (signal cond_put ∷ []) r
      × (r.locked ≡ q.locked)
  unfolding pop_take find_match
  pop_take-After = (
    record popped { events = q.events ++ signal cond_put ∷ [] },
    rw (not_null head_at, take_first-runs),
    record {
      cells = cs;
      valid = record {
        holds = record {
          chain =
              Chain-write q.heap q.used_first_element none cs v.holds.chain.3
                (ground (arith, v.holds.first, v.holds.chain.2));
          first = refl;
          last = refl;
          count = omega (arith, v.holds.count, v.small, v.bounded);
        };
        bounded = omega (arith, v.holds.count, v.small, v.bounded);
        small = v.small;
        ordered = v.ordered;
      };
      is_spec = refl;
      events = refl;
      capability = refl;
      allowed = refl;
      sort = refl;
      ascending = refl;
      cmp = refl;
      frame =
          λ a _ out. write-other q.heap q.used_first_element none a (ground (arith, v.holds.first));
      freed = λ a out inside. freed_at a (ground (arith, v.holds.first));
    },
    refl,
  )
    where
      freed_at :
          (a : Ptr)
          → (a == q.used_first_element) ≡ true
          → write q.heap q.used_first_element none a ≡ none
      freed_at a e = write-here q.heap q.used_first_element none a e

-- A pop that does not wait takes the head, or finds the queue empty.
pub pop_element-After :
    (q : Queue) (cs : Cells) (e : ℕ)
    → IsValid q cs
    → (r : Queue) × (pop_element e false none null q ≡ ok (returned (pop_result (contents cs))) r)
      × After q cs (pop_contents (contents cs)) (pop_events (contents cs)) r
      × (r.locked ≡ q.locked)
unfolding pop_element
pop_element-After q [] e v = (
  q,
  ap (λ (m : M (Reply (ℤ × ℕ))). m q)
      (if_true (q.used_element_cnts == 0) _ _ (ground (arith, v.holds.count))),
  After-same q [] v,
  refl,
)
pop_element-After q ((p, d) ∷ cs) e v =
    let (r, runs, after, same) = pop_take-After q p d cs v in
    (
      r,
      ap (λ (m : M (Reply (ℤ × ℕ))). m q)
            (if_false (q.used_element_cnts == 0) _ _ (ground (arith, v.holds.count)))
          ∙ runs,
      after,
      same,
    )
