-- ===== src/Poll/Wakeup.antt =====
-- raiseWakeup: the control socket holds a byte exactly while a wake-up is pending.
use tools_on_linux.Poll.Control.{raise_wakeup, moved, failed, nothing}
use tools_on_linux.Poll.Control.{failed, Io, wake_event, gives_up}
use tools_on_linux.Poll.State.{Run, Poll}
use tools_on_linux.Prelude.{
  ◌||◌, not, inl, inr, inr, inl, Bool-cases, ℕ, ◌+◌, ◌%◌, ◌^◌, ◌<◌, Bool, true, false, not, List,
  [], ◌∷◌, ◌==◌, if◌then◌else◌, ◌≡◌, refl, Option, none, some, arith,
}
use tools_on_linux.Prelude.Outcome.{ok}

-- How the calls come out: the byte went through, or an errno that is not retried.
abbrev pub verdict : List Io → Option (Option ℕ)
verdict [] = none
verdict (moved ∷ io) = some none
verdict (nothing ∷ io) = verdict io
verdict (failed e ∷ io) = if gives_up e then some (some e) else verdict io

-- The invariant of the wake-up.
pub record IsSynced (p : Poll) : Type 0 where
  pub bytes : p.control_bytes ≡ (if p.control_pending == 0 then 0 else 1)
  pub small : p.control_pending < 2 ^ 31

abbrev pub went_through : Option ℕ → Bool
went_through none = true
went_through (some e) = false

-- A loop over the socket that comes to its end with verdict `v`; `k` is the change of the count.
wake_event-runs :
    (io : List Io) (v : Option ℕ) (p : Poll)
    → verdict io ≡ some v
    → (e : ℕ) × (wake_event io p
        ≡ ok (went_through v) (record p {
          control_bytes = if went_through v then p.control_bytes + 1 else p.control_bytes;
          errno = e;
        }))
unfolding wake_event
wake_event-runs [] v p h = cc
wake_event-runs (moved ∷ io) none p h = (p.errno, refl)
wake_event-runs (moved ∷ io) (some e) p h = cc
wake_event-runs (nothing ∷ io) v p h = wake_event-runs io v p h
wake_event-runs (failed e ∷ io) none p h = elim (Bool-cases (gives_up e)) [
  | inl bad ↦ cc
  | inr retried ↦ rw retried (wake_event-runs io none (record p { errno = e }) (rw retried at h))
]
wake_event-runs (failed e ∷ io) (some c) p h = elim (Bool-cases (gives_up e)) [
  | inl bad ↦ (e, rw bad refl)
  | inr retried ↦
      rw retried (wake_event-runs io (some c) (record p { errno = e }) (rw retried at h))
]

-- A call that gives `b` and leaves `n` wake-ups pending.
abbrev pub Leaves : Poll → Run Bool → Bool → ℕ → Type 0
Leaves p run b n =
    (r : Poll) × (run ≡ ok b r)
    × IsSynced r
    × (r.control_pending ≡ n)
    × (r ≡ record p {
      control_pending = r.control_pending;
      control_bytes = r.control_bytes;
      errno = r.errno;
    })

-- The invariant after a change of the two counts.
pub synced :
    (r : Poll) (n : ℕ)
    → r.control_pending ≡ n
    → n < 2 ^ 31
    → r.control_bytes ≡ (if n == 0 then 0 else 1)
    → IsSynced r
synced r n pending small bytes = record {
  bytes = ground (arith, pending, bytes);
  small = omega (arith, pending, small);
}

next : (n : ℕ) → n + 1 < 2 ^ 31 → (n + 1) % 2 ^ 32 ≡ n + 1
next n small = omega (arith, small)

module _ (io : List Io) (p : Poll) (sync : IsSynced p) (room : p.control_pending + 1 < 2 ^ 31) where
  pub raise_wakeup-Leaves :
      (v : Option ℕ)
      → verdict io ≡ some v
      → let n = p.control_pending in
        let done = not (n == 0) || went_through v in
        Leaves p (raise_wakeup io p) done (if done then n + 1 else n)
  unfolding raise_wakeup
  raise_wakeup-Leaves none ends = elim (Bool-cases (p.control_pending == 0)) [
    | inl zero_ ↦
        let (e, runs) = wake_event-runs io none p ends in
        let count = next p.control_pending room in
        (
          record p {
            control_bytes = p.control_bytes + 1;
            errno = e;
            control_pending = (p.control_pending + 1) % 2 ^ 32;
          },
          rw (zero_, runs) refl,
          synced _ (p.control_pending + 1) count room (ground (arith, sync.bytes, zero_)),
          rw zero_ count,
          refl,
        )
    | inr some_ ↦
        let count = next p.control_pending room in
        (
          record p { control_pending = (p.control_pending + 1) % 2 ^ 32 },
          rw some_ refl,
          synced _ (p.control_pending + 1) count room (ground (arith, sync.bytes, some_)),
          rw some_ count,
          refl,
        )
  ]
  raise_wakeup-Leaves (some c) ends = elim (Bool-cases (p.control_pending == 0)) [
    | inl zero_ ↦
        let (e, runs) = wake_event-runs io (some c) p ends in
        (
          record p { errno = e },
          rw (zero_, runs) refl,
          record { bytes = sync.bytes; small = sync.small },
          rw zero_ refl,
          refl,
        )
    | inr some_ ↦
        let count = next p.control_pending room in
        (
          record p { control_pending = (p.control_pending + 1) % 2 ^ 32 },
          rw some_ refl,
          synced _ (p.control_pending + 1) count room (ground (arith, sync.bytes, some_)),
          rw some_ count,
          refl,
        )
  ]
