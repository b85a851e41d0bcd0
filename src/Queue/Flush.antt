-- ===== src/Queue/Flush.antt =====
-- Queue::_flushElements. The callback with its user data is an `Option`: NULL calls nothing.
use tools_on_linux.Prelude.{ℕ, zero, suc, ◌+◌, Option, none, some, ◌==◌, if◌then◌else◌}
use tools_on_linux.Prelude.Int.{ℤ}
use tools_on_linux.Memory.{null}
use tools_on_linux.Queue.State.{
  q_ok, flushed, out_of_fuel, M, pure, ◌>>=◌, ◌>>◌, get, modify, emit, load, free,
}

-- `if (fcb != NULL) fcb(userdata, ele->data);`
abbrev pub call_back : Option ℕ → ℕ → M (Unit {0})
call_back none content = pure tt
call_back (some userdata) content = emit (flushed userdata content)

unfoldable pub flush_loop : Option ℕ → ℕ → M (Unit {0})
flush_loop fcb zero = λ _. out_of_fuel
flush_loop fcb (suc k) = do
  q ← get
  if q.used_first_element == null then pure tt else do
    n ← load q.used_first_element
    modify (λ q. record q { used_first_element = n.next })
    call_back fcb n.content
    free q.used_first_element
    flush_loop fcb k

unfoldable pub flush_elements : Option ℕ → M ℤ
flush_elements fcb = do
  q ← get
  flush_loop fcb (q.used_element_cnts + 1)
  modify
      (λ q. record q { used_first_element = null; used_last_element = null; used_element_cnts = 0 })
  pure q_ok
