-- ===== src/Poll/Creating.antt =====
-- The constructor of Poll.
use tools_on_linux.Poll.Setting.{set_events-Sets, set_code}
use tools_on_linux.Poll.Adding.{add_fd-Adds}
use tools_on_linux.Poll.Watching.{events_of, IsTable}
use tools_on_linux.Prelude.Outcome.{ok}
use tools_on_linux.ErrorCode.{no_error}
use tools_on_linux.Poll.Table.{empty_poll, socket_ends, set_fd_readable, readable_events, new_poll}
use tools_on_linux.Poll.State.{Fds, Poll}
use tools_on_linux.Prelude.{
  if_true, ==_refl, ℕ, Bool, true, Option, none, some, ◌==◌, if◌then◌else◌, ◌≡◌, refl, arith, inl,
  ◌∙◌, ap,
}

twice :
    (y x : ℕ)
    → if◌then◌else◌ {A = Option ℕ} (y == x) (some 59) (if y == x then some 56 else none)
      ≡ (if y == x then some 59 else none)
twice y x = ground arith

-- A new object watches the read end of its control socket for input, whatever socketpair gives, and
-- nothing else. It has both ends of the socket.
pub new_poll-watches :
    (rest : Fds) (sockets : Option (ℕ × ℕ)) (controllable : Bool)
    → (r : Poll) × (new_poll (some rest) sockets controllable ≡ ok no_error r)
      × IsTable r
      × ((y : ℕ) → events_of r y ≡ (if y == r.control_read_fd then some 59 else none))
      × (r.controllable ≡ controllable)
      × (r.control_pending ≡ 0)
      × (r.control_bytes ≡ 0)
      × (r.control_read_fd ≡ (socket_ends sockets).0)
      × (r.control_write_fd ≡ (socket_ends sockets).1)
unfolding new_poll empty_poll readable_events set_fd_readable
new_poll-watches rest sockets controllable =
    let p : Poll = empty_poll sockets controllable in
    let x = p.control_read_fd in
    let (q, adds, valid, same_q, events_q) =
      add_fd-Adds p rest x (record { bounded = omega arith; array = inl (refl, refl) }) in
    let (r, sets, valid', same_r, events_r) = set_events-Sets q x (readable_events true) valid in
    let watched : events_of q x ≡ some 56 = events_q x ∙ if_true (x == x) _ _ (==_refl x) in
    let read : r.control_read_fd ≡ x =
      ap (λ p. p.control_read_fd) same_r ∙ ap (λ p. p.control_read_fd) same_q in
    (
      r,
      rw adds (sets ∙ ap (λ o. ok (set_code o) r) watched),
      valid',
      λ y. events_r y ∙ rw (watched, read, events_q y) (twice y x),
      ap (λ p. p.controllable) same_r ∙ ap (λ p. p.controllable) same_q,
      ap (λ p. p.control_pending) same_r ∙ ap (λ p. p.control_pending) same_q,
      ap (λ p. p.control_bytes) same_r ∙ ap (λ p. p.control_bytes) same_q,
      read,
      ap (λ p. p.control_write_fd) same_r ∙ ap (λ p. p.control_write_fd) same_q,
    )
