-- ===== src/Queue/Pushing.antt =====
-- What _pushElement does, on each of its branches.
use tools_on_linux.Prelude.Int.{ℤ}
use tools_on_linux.Prelude.{
  Bool, List, ℕ, ◌+◌, ◌%◌, ◌<◌, ◌^◌, ◌≡◌, ◌≢◌, refl, ap, ◌∙◌, inl, inr, false, true, not, ◌||◌,
  none, some, [], ◌∷◌, ◌++◌, arith, ◌==◌, length, length-map, if◌then◌else◌, ne→==_false,
}
use tools_on_linux.Memory.{Ptr, null, element, write}
use tools_on_linux.Memory.Chain.{
  write-other, first_ptr, last_ptr, Cells, has-fresh, Chain-write, contents, has,
}
use tools_on_linux.Queue.State.{
  pure, Reply, Run, q_err_mem, Event, q_err_num_elements, is_ok, q_err_nonewdata, M, Compare, Queue,
  ok, returned, q_ok, signal, cond_get,
}
use tools_on_linux.Queue.Push.{push_allocated, push_element, push_insert, link_last, link_sorted}
use tools_on_linux.Queue.Represents.{After-same, Points, Represents, IsValid, After}
use tools_on_linux.Queue.Order.{insert_sorted, inserted_as, inserted, length-inserted_as}
use tools_on_linux.Queue.Insert.{Links, link_last-Links, link_sorted-Links, Links-of_eq}

module _ (q : Queue) (cs : Cells) (new : Ptr) (ele : ℕ) (v : IsValid q cs) (ne : new ≢ null)
    (fresh : q.heap new ≡ none) where
  -- The object after the allocation.
  abbrev allocated : Queue
  allocated = record q { heap = write q.heap new (some (element ele null)) }

  new_at : Points allocated new ele null
  unfolding write
  new_at = record { ne_null = ne; at = ground arith }

  new_out : has new cs ≡ false
  new_out = has-fresh q.heap new cs v.holds.chain fresh

  still : Represents allocated cs
  still = record {
    chain = Chain-write q.heap new (some (element ele null)) cs v.holds.chain new_out;
    first = v.holds.first;
    last = v.holds.last;
    count = v.holds.count;
  }

  abbrev linking : M (Unit {0})
  linking =
      if not q.sort || q.used_first_element == null then link_last new else link_sorted new ele

  first-of :
      (cs : Cells) (cmp : Compare)
      → q.sort ≡ true
      → q.cmp_ele_fun ≡ some cmp
      → Represents allocated cs
      → has new cs ≡ false
      → Links allocated cs new linking (insert_sorted q.ascending_order cmp ele (contents cs))
  unfolding insert_sorted
  first-of [] cmp on has_cmp rep out =
      Links-of_eq {run = link_last new} (rw (on, rep.first)) refl
        (link_last-Links allocated new ele new_at [] rep out)
  first-of ((s, d) ∷ rest) cmp on has_cmp rep out =
      Links-of_eq {run = link_sorted new ele}
        (rw (on, ne→==_false q.used_first_element null (ground (arith, rep.first, rep.chain.0))))
        refl (link_sorted-Links allocated new ele new_at cmp s d rest has_cmp rep out)

  -- Both branches link the element where the mode of the queue says.
  link-Links : Links allocated cs new linking (inserted q ele (contents cs))
  unfolding inserted_as
  link-Links = elim v.ordered [
    | inl plain ↦
        Links-of_eq {run = link_last new} (rw plain) (rw plain)
          (link_last-Links allocated new ele new_at cs still new_out)
    | inr (cmp, on, has_cmp) ↦
        Links-of_eq {run = linking} refl (rw (on, has_cmp))
          (first-of cs cmp on has_cmp still new_out)
  ]

  abbrev pushed : Queue → Queue
  pushed r = record r {
    used_element_cnts = (r.used_element_cnts + 1) % 2 ^ 32;
    events = r.events ++ signal cond_get ∷ [];
  }

  -- With room and memory the element is inserted, and one waiting reader is woken.
  pub push_allocated-After :
      q.used_element_cnts < q.capability
      → (r : Queue) × (push_allocated new ele q ≡ ok (returned q_ok) r)
        × After q cs (inserted q ele (contents cs)) (signal cond_get ∷ []) r
        × (r.locked ≡ q.locked)
  unfolding push_allocated
  push_allocated-After room = (
    pushed linked,
    rw (l.runs),
    record {
      cells = l.cells;
      valid = record {
        holds = record { chain = l.chain; first = refl; last = refl; count = counted };
        bounded = omega (arith, v.small);
        small = v.small;
        ordered = v.ordered;
      };
      is_spec = l.is_spec;
      events = refl;
      capability = refl;
      allowed = refl;
      sort = refl;
      ascending = refl;
      cmp = refl;
      frame = λ a out _.
          l.frame a out
          ∙ write-other q.heap new (some (element ele null)) a (ground (arith, l.grows a));
      freed = λ a out inside. ground (arith, l.grows a);
    },
    refl,
  )
    where
      l : Links allocated cs new linking (inserted q ele (contents cs))
      l = link-Links

      linked : Queue
      linked = record allocated {
        used_first_element = first_ptr l.cells;
        used_last_element = last_ptr l.cells;
        heap = l.heap;
      }

      counted : (q.used_element_cnts + 1) % 2 ^ 32 ≡ length l.cells
      counted = omega (
        arith,
        v.small,
        v.holds.count,
        length-map (λ (c : Ptr × ℕ). c.1) l.cells,
        length-map (λ (c : Ptr × ℕ). c.1) cs,
        ap length l.is_spec,
        length-inserted_as q.sort q.ascending_order q.cmp_ele_fun ele (contents cs),
      )

-- The code that a push gives under the mutex.
unfoldable pub push_code : Queue → Ptr → ℤ
push_code q new =
    if not q.allowed_new_data
    then q_err_nonewdata
    else if q.used_element_cnts == q.capability
    then q_err_num_elements
    else if new == null
    then q_err_mem
    else q_ok

abbrev pub push_contents : ℤ → Queue → ℕ → List ℕ → List ℕ
push_contents code q ele xs = if is_ok code then inserted q ele xs else xs

abbrev pub push_events : ℤ → List Event
push_events code = if is_ok code then signal cond_get ∷ [] else []

-- What calloc returns: NULL, or an address where nothing is allocated.
abbrev pub Allocates : Queue → Ptr → Type 0
Allocates q new = (new ≢ null) → q.heap new ≡ none

-- A run that gives the code `c`, and stores the element exactly where `c` is Q_OK.
abbrev pub PushResult : Queue → Cells → ℕ → ℤ → Run (Reply ℤ) → Type 0
PushResult q cs ele c run =
    (r : Queue) × (run ≡ ok (returned c) r)
    × After q cs (push_contents c q ele (contents cs)) (push_events c) r
    × (r.locked ≡ q.locked)

module _ (q : Queue) (cs : Cells) (new : Ptr) (ele : ℕ) (v : IsValid q cs)
    (fresh : Allocates q new) where
  refused :
      (c : ℤ) {run : Run (Reply ℤ)}
      → is_ok c ≡ false
      → run ≡ ok (returned c) q
      → PushResult q cs ele c run
  refused c bad e = (q, e, rw bad (After-same q cs v), refl)

  -- A test of the code and the same test of the specification.
  split :
      (b : Bool) {c d : ℤ} (m n : M (Reply ℤ))
      → (b ≡ true → PushResult q cs ele c (m q))
      → (b ≡ false → PushResult q cs ele d (n q))
      → PushResult q cs ele (if b then c else d) ((if b then m else n) q)
  split true m n on off = on refl
  split false m n on off = off refl

  stored :
      (q.used_element_cnts == q.capability) ≡ false
      → PushResult q cs ele (if new == null then q_err_mem else q_ok) (push_insert new ele q)
  unfolding push_insert
  stored room =
      split (new == null) (pure (returned q_err_mem)) (push_allocated new ele)
        (λ _. refused q_err_mem refl refl)
        (λ got.
          let ne : new ≢ null = ground arith in
          push_allocated-After q cs new ele v ne (fresh ne) (ground (arith, v.bounded)))

  -- A push that does not wait gives its code.
  pub push_element-After : PushResult q cs ele (push_code q new) (push_element new ele false q)
  unfolding push_element push_code
  push_element-After =
      split (not q.allowed_new_data) (pure (returned q_err_nonewdata)) _
        (λ _. refused q_err_nonewdata refl refl)
        λ _.
          split (q.used_element_cnts == q.capability) (pure (returned q_err_num_elements))
            (push_insert new ele) (λ _. refused q_err_num_elements refl refl) stored
