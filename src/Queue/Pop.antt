-- ===== src/Queue/Pop.antt =====
-- Queue::_popElement and Queue::_peekElement. The out parameter `*e` is a value that goes in and
-- comes back with the result.
use tools_on_linux.Prelude.{
  ℕ, zero, suc, ◌+◌, ◌-◌, ◌%◌, ◌^◌, Bool, not, ◌&&◌, Option, none, some, ◌==◌, if◌then◌else◌,
}
use tools_on_linux.Prelude.Int.{ℤ, pos, ltb_ℤ}
use tools_on_linux.Memory.{Ptr, null}
use tools_on_linux.Queue.State.{
  q_ok, q_err_nonewdata, q_err_invalid_element, q_err_num_elements, Compare, cond_get, cond_put,
  signal, out_of_fuel, M, pure, ◌>>=◌, ◌>>◌, get, modify, emit, load, set_next, free, is_ok, Reply,
  returned, cond_wait,
}

-- `--mUsedElementCnts` on a uint32_t.
abbrev pub decrement : M (Unit {0})
decrement =
    modify (λ q. record q { used_element_cnts = (q.used_element_cnts + 2 ^ 32 - 1) % 2 ^ 32 })

-- The search loop with `elePrev` and `ele`. It hands the comparator the address of the element.
unfoldable pub find_match : Option Compare → ℕ → ℕ → (prev ele : Ptr) → M (Ptr × Ptr)
find_match none cmp_ele k prev ele = pure (prev, ele)
find_match (some cmp) cmp_ele zero prev ele = λ _. out_of_fuel
find_match (some cmp) cmp_ele (suc k) prev ele =
    if not (ele == null) && not (is_ok (cmp ele cmp_ele))
    then (do n ← load ele; find_match (some cmp) cmp_ele k ele n.next)
    else pure (prev, ele)

-- The element is the first: unlink it, and give its content.
unfoldable pub take_first : Ptr → M ℕ
take_first ele = do
  n ← load ele
  modify (λ q. record q { used_first_element = n.next })
  decrement
  if n.next == null then modify (λ q. record q { used_last_element = null }) else pure tt
  free ele
  pure n.content

-- The element has a predecessor.
unfoldable pub take_after : Ptr → Ptr → M ℕ
take_after prev ele = do n ← load ele; set_next prev n.next; decrement; free ele; pure n.content

-- From the search to the end.
unfoldable pub pop_take : Option Compare → ℕ → M (Reply (ℤ × ℕ))
pop_take cmp cmp_ele = do
  q ← get
  (prev, ele) ← find_match cmp cmp_ele (q.used_element_cnts + 1) null q.used_first_element
  if ele == null then pure (returned (q_err_invalid_element, null)) else do
    content ← if prev == null then take_first ele else take_after prev ele
    emit (signal cond_put)
    pure (returned (q_ok, content))

-- The head of the waiting loop, where a woken thread comes back.
unfoldable pub pop_wait : ℕ → Option Compare → ℕ → M (Reply (ℤ × ℕ))
pop_wait e cmp cmp_ele = do
  q ← get
  if q.used_element_cnts == 0 && q.allowed_new_data
      then cond_wait cond_get
      else if q.used_element_cnts == 0 && not q.allowed_new_data
      then pure (returned (q_err_nonewdata, e))
      else pop_take cmp cmp_ele

unfoldable pub pop_element : ℕ → Bool → Option Compare → ℕ → M (Reply (ℤ × ℕ))
pop_element e is_wait cmp cmp_ele = do
  q ← get
  if q.used_element_cnts == 0
      then (if not is_wait
          then pure (returned (q_err_num_elements, null))
          else pop_wait e cmp cmp_ele)
      else pop_take cmp cmp_ele

-- `while (ele != NULL && elePos++ < pos)`; `pos` is an int32_t.
unfoldable pub peek_loop : ℤ → ℕ → Ptr → ℕ → M Ptr
peek_loop position zero ele ele_pos = λ _. out_of_fuel
peek_loop position (suc k) ele ele_pos =
    if not (ele == null) && ltb_ℤ (pos ele_pos) position
    then (do n ← load ele; peek_loop position k n.next (ele_pos + 1))
    else pure ele

unfoldable pub peek_element : ℕ → ℤ → M (ℤ × ℕ)
peek_element e position = do
  q ← get
  if q.used_element_cnts == 0 then pure (q_err_invalid_element, e) else do
    ele ← peek_loop position (q.used_element_cnts + 1) q.used_first_element 0
    if ele == null
        then pure (q_err_invalid_element, e)
        else (do n ← load ele; pure (q_ok, n.content))
