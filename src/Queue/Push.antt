-- ===== src/Queue/Push.antt =====
-- Queue::_pushElement.
use tools_on_linux.Prelude.{
  ℕ, zero, suc, ◌+◌, ◌%◌, ◌^◌, Bool, not, ◌&&◌, ◌||◌, none, some, ◌==◌, if◌then◌else◌,
}
use tools_on_linux.Prelude.Int.{ℤ, pos, leb_ℤ}
use tools_on_linux.Memory.{Ptr, null, element}
use tools_on_linux.Queue.State.{
  q_ok, q_err_mem, q_err_nonewdata, q_err_num_elements, Compare, cond_get, cond_put, signal, ok,
  fault, out_of_fuel, M, pure, ◌>>=◌, ◌>>◌, get, modify, emit, load, store, set_next, Reply,
  returned, cond_wait,
}

-- `cmpEleFun`, whose call is a fault where it is NULL.
unfoldable pub comparator : M Compare
comparator q = elim q.cmp_ele_fun [ none ↦ fault | some cmp ↦ ok cmp q ]

-- `asc_first_el`, `desc_first_el`: the new element goes before the first, whose content is `s`.
unfoldable pub goes_first : Bool → Compare → ℕ → ℕ → Bool
goes_first ascending cmp s ele =
    (ascending && leb_ℤ (pos 0) (cmp s ele)) || (not ascending && leb_ℤ (cmp s ele) (pos 0))

-- The tests that break the search: s <= e <= t, or s >= e >= t.
unfoldable pub goes_between : Bool → Compare → ℕ → ℕ → ℕ → Bool
goes_between ascending cmp s ele t =
    (ascending && leb_ℤ (cmp s ele) (pos 0) && leb_ℤ (cmp ele t) (pos 0))
    || (not ascending && leb_ℤ (pos 0) (cmp s ele) && leb_ℤ (pos 0) (cmp ele t))

-- The `for` loop: the two neighbours between which the new element goes.
unfoldable pub find_place : Bool → Compare → ℕ → ℕ → (s t : Ptr) → M (Ptr × Ptr)
find_place ascending cmp ele zero s t = λ _. out_of_fuel
find_place ascending cmp ele (suc k) s t = if s == null || t == null then pure (s, t) else do
  sn ← load s
  tn ← load t
  if goes_between ascending cmp sn.content ele tn.content
      then pure (s, t)
      else find_place ascending cmp ele k t tn.next

-- The branch for an unsorted or an empty queue: insert at the end.
unfoldable pub link_last : Ptr → M (Unit {0})
link_last new = do
  q ← get
  if q.used_last_element == null
      then modify (λ q. record q { used_first_element = new })
      else set_next q.used_last_element new
  modify (λ q. record q { used_last_element = new })

-- "actually insert": the new element goes between `s` and `t`.
unfoldable pub link_behind : Ptr → (s t : Ptr) → M (Unit {0})
link_behind new s t = do
  set_next s new
  set_next new t
  if t == null then modify (λ q. record q { used_last_element = new }) else pure tt

-- The branch for a sorted queue with an element.
unfoldable pub link_sorted : Ptr → ℕ → M (Unit {0})
link_sorted new ele = do
  q ← get
  cmp ← comparator
  s ← load q.used_first_element
  if goes_first q.ascending_order cmp s.content ele
      then set_next new q.used_first_element >> modify (λ q. record q { used_first_element = new })
      else do
        (s, t) ←
            find_place q.ascending_order cmp ele (q.used_element_cnts + 1) q.used_first_element
              s.next
        link_behind new s t

-- From the allocation at `new` to the end.
unfoldable pub push_allocated : Ptr → ℕ → M (Reply ℤ)
push_allocated new ele = do
  store new (some (element ele null))
  q ← get
  if not q.sort || q.used_first_element == null then link_last new else link_sorted new ele
  modify (λ q. record q { used_element_cnts = (q.used_element_cnts + 1) % 2 ^ 32 })
  emit (signal cond_get)
  pure (returned q_ok)

-- `new` is what calloc returns.
unfoldable pub push_insert : Ptr → ℕ → M (Reply ℤ)
push_insert new ele = if new == null then pure (returned q_err_mem) else push_allocated new ele

-- The head of the waiting loop, where a woken thread comes back.
unfoldable pub push_wait : Ptr → ℕ → M (Reply ℤ)
push_wait new ele = do
  q ← get
  if q.used_element_cnts == q.capability && q.allowed_new_data
      then cond_wait cond_put
      else if not q.allowed_new_data
      then pure (returned q_err_nonewdata)
      else push_insert new ele

unfoldable pub push_element : Ptr → ℕ → Bool → M (Reply ℤ)
push_element new ele is_wait = do
  q ← get
  if not q.allowed_new_data
      then pure (returned q_err_nonewdata)
      else if q.used_element_cnts == q.capability
      then (if not is_wait then pure (returned q_err_num_elements) else push_wait new ele)
      else push_insert new ele
