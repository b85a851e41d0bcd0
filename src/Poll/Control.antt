-- ===== src/Poll/Control.antt =====
-- The wake-up of a waiting thread: the control socket and mControlPending. Each of raiseWakeup,
-- releaseWakeup and releaseAllWakeup runs under mMutex.
use tools_on_linux.Poll.State.{Poll, M, positive}
use tools_on_linux.Prelude.{
  ℕ, ◌+◌, ◌-◌, ◌%◌, ◌^◌, Bool, true, false, not, ◌&&◌, List, [], ◌∷◌, ◌==◌, if◌then◌else◌,
}
use tools_on_linux.Prelude.Outcome.{out_of_fuel, pure, get, modify, ◌>>=◌, ◌>>◌}

abbrev pub eintr : ℕ
eintr = 4

abbrev pub eagain : ℕ
eagain = 11

abbrev pub ewouldblock : ℕ
ewouldblock = 11

-- What one call of write or read gives for one byte: the byte went through, the call failed with
-- this errno, or it moved nothing.
pub data Io : Type 0 where
  moved : Io
  failed : ℕ → Io
  nothing : Io

-- `num == -1 && errno != EAGAIN && errno != EINTR`
abbrev pub gives_up : ℕ → Bool
gives_up e = not (e == eagain) && not (e == eintr)

-- The loop of wakeEvent, over what the calls of write give.
unfoldable pub wake_event : List Io → M Bool
wake_event [] = λ _. out_of_fuel
wake_event (moved ∷ rest) =
    modify (λ p. record p { control_bytes = p.control_bytes + 1 }) >> pure true
wake_event (nothing ∷ rest) = wake_event rest
wake_event (failed e ∷ rest) =
    let again = wake_event rest in
    modify (λ p. record p { errno = e }) >> (if gives_up e then pure false else again)

-- The loop of releaseEvent, over what the calls of read give.
unfoldable pub release_event : List Io → M Bool
release_event [] = λ _. out_of_fuel
release_event (moved ∷ rest) =
    modify (λ p. record p { control_bytes = p.control_bytes - 1 }) >> pure true
release_event (nothing ∷ rest) = release_event rest
release_event (failed e ∷ rest) =
    let again = release_event rest in
    modify (λ p. record p { errno = e }) >> (if gives_up e then pure false else again)

unfoldable pub raise_wakeup : List Io → M Bool
raise_wakeup io = do
  p ← get
  result ← if p.control_pending == 0 then wake_event io else pure true
  if result
      then modify (λ p. record p { control_pending = (p.control_pending + 1) % 2 ^ 32 })
      else pure tt
  pure result

unfoldable pub release_wakeup : List Io → M Bool
release_wakeup io = do
  p ← get
  if positive p.control_pending
      then (do
        result ← if p.control_pending == 1 then release_event io else pure true
        if result
            then modify
                (λ p. record p { control_pending = (p.control_pending + 2 ^ 32 - 1) % 2 ^ 32 })
            else pure tt
        pure result)
      else modify (λ p. record p { errno = ewouldblock }) >> pure false

unfoldable pub release_all_wakeup : List Io → M Bool
release_all_wakeup io = do
  p ← get
  if positive p.control_pending
      then (do
        result ← release_event io
        if result then modify (λ p. record p { control_pending = 0 }) else pure tt
        pure result)
      else modify (λ p. record p { errno = ewouldblock }) >> pure false

-- The store of setFlushing.
abbrev pub flag : Bool → ℕ
flag true = 1
flag false = 0

-- The test of setFlushing; its two atomic loads are one step beside the other threads.
abbrev pub must_wake : Poll → Bool
must_wake p = not (p.flushing == 0) && p.controllable && positive p.waiting

unfoldable pub set_flushing : List Io → Bool → M (Unit {0})
set_flushing io flushing = do
  modify (λ p. record p { flushing = flag flushing })
  p ← get
  if must_wake p then raise_wakeup io >> pure tt else pure tt
