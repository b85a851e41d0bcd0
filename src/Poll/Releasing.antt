-- ===== src/Poll/Releasing.antt =====
-- releaseWakeup and releaseAllWakeup, and all three together.
use tools_on_linux.Poll.Wakeup.{
  went_through, verdict, synced, raise_wakeup-Leaves, Leaves, IsSynced,
}
use tools_on_linux.Poll.Control.{
  ewouldblock, release_wakeup, release_event, release_all_wakeup, raise_wakeup, moved, failed,
  nothing,
}
use tools_on_linux.Poll.Control.{failed, Io, gives_up}
use tools_on_linux.Poll.State.{M, positive, Run, Poll}
use tools_on_linux.Prelude.{
  ◌||◌, ◌-◌, not, inl, inr, inr, inl, Bool-cases, ℕ, ◌+◌, ◌-◌, ◌%◌, ◌^◌, ◌<◌, Bool, true, false,
  not, ◌&&◌, List, [], ◌∷◌, ◌==◌, if◌then◌else◌, ◌≡◌, refl, Option, none, some, arith,
}
use tools_on_linux.Prelude.Outcome.{pure, modify, ◌>>=◌, ◌>>◌, ok}

release_event-runs :
    (io : List Io) (v : Option ℕ) (p : Poll)
    → verdict io ≡ some v
    → (e : ℕ) × (release_event io p
        ≡ ok (went_through v) (record p {
          control_bytes = if went_through v then p.control_bytes - 1 else p.control_bytes;
          errno = e;
        }))
unfolding release_event
release_event-runs [] v p h = cc
release_event-runs (moved ∷ io) none p h = (p.errno, refl)
release_event-runs (moved ∷ io) (some e) p h = cc
release_event-runs (nothing ∷ io) v p h = release_event-runs io v p h
release_event-runs (failed e ∷ io) none p h = elim (Bool-cases (gives_up e)) [
  | inl bad ↦ cc
  | inr retried ↦ rw retried (release_event-runs io none (record p { errno = e }) (rw retried at h))
]
release_event-runs (failed e ∷ io) (some c) p h = elim (Bool-cases (gives_up e)) [
  | inl bad ↦ (e, rw bad refl)
  | inr retried ↦
      rw retried (release_event-runs io (some c) (record p { errno = e }) (rw retried at h))
]

previous : (n : ℕ) → (n == 0) ≡ false → n < 2 ^ 31 → (n + 2 ^ 32 - 1) % 2 ^ 32 ≡ n - 1
previous n some_ small = ground arith

positive-small : (n : ℕ) → n < 2 ^ 31 → positive n ≡ not (n == 0)
positive-small n small = ground arith

no_byte : (n b : ℕ) → b ≡ (if n == 0 then 0 else 1) → (n == 0) ≡ false → b - 1 ≡ 0
no_byte n b bytes some_ = ground arith

not_zero : (n : ℕ) → (n == 1) ≡ true → (n == 0) ≡ false
not_zero n one = ground arith

nothing_left : (n : ℕ) (b : Bool) → (n == 0) ≡ true → n ≡ (if b then 0 else n)
nothing_left n b zero_ = ground arith

nothing_before : (n : ℕ) (b : Bool) → (n == 0) ≡ true → n ≡ (if b then n - 1 else n)
nothing_before n b zero_ = ground arith

-- releaseAllWakeup with a wake-up pending.
abbrev all_body : List Io → M Bool
all_body io = do
  result ← release_event io
  if result then modify (λ p. record p { control_pending = 0 }) else pure tt
  pure result

-- releaseWakeup with the last one pending.
abbrev one_body : List Io → M Bool
one_body io = do
  result ← release_event io
  if result
      then modify (λ p. record p { control_pending = (p.control_pending + 2 ^ 32 - 1) % 2 ^ 32 })
      else pure tt
  pure result

module _ (io : List Io) (p : Poll) (sync : IsSynced p) where
  -- Nothing but errno changes.
  unchanged :
      (e : ℕ) {run : Run Bool} {b : Bool} {n : ℕ}
      → run ≡ ok b (record p { errno = e })
      → p.control_pending ≡ n
      → Leaves p run b n
  unchanged e runs same =
      (record p { errno = e }, runs, record { bytes = sync.bytes; small = sync.small }, same, refl)

  release_all_wakeup-Leaves :
      (v : Option ℕ)
      → verdict io ≡ some v
      → let n = p.control_pending in
        Leaves p
          (release_all_wakeup io p)
          (not (n == 0) && went_through v)
          (if went_through v then 0 else n)
  unfolding release_all_wakeup
  release_all_wakeup-Leaves v ends = elim (Bool-cases (p.control_pending == 0)) [
    | inl zero_ ↦
        unchanged ewouldblock (rw (positive-small p.control_pending sync.small, zero_) refl)
          (nothing_left p.control_pending (went_through v) zero_)
    | inr some_ ↦ rw (positive-small p.control_pending sync.small, some_) (released v ends some_)
  ]
    where
      released :
          (v : Option ℕ)
          → verdict io ≡ some v
          → (p.control_pending == 0) ≡ false
          → Leaves p
              (all_body io p)
              (went_through v)
              (if went_through v then 0 else p.control_pending)
      released none ends some_ =
          let (e, runs) = release_event-runs io none p ends in
          (
            record p { control_bytes = p.control_bytes - 1; errno = e; control_pending = 0 },
            rw runs refl,
            synced _ 0 refl (omega arith)
                (no_byte p.control_pending p.control_bytes sync.bytes some_),
            refl,
            refl,
          )
      released (some c) ends some_ =
          let (e, runs) = release_event-runs io (some c) p ends in unchanged e (rw runs refl) refl

  release_wakeup-Leaves :
      (v : Option ℕ)
      → verdict io ≡ some v
      → let n = p.control_pending in
        Leaves p
          (release_wakeup io p)
          (not (n == 0) && (not (n == 1) || went_through v))
          (if not (n == 1) || went_through v then n - 1 else n)
  unfolding release_wakeup
  release_wakeup-Leaves v ends = elim (Bool-cases (p.control_pending == 1)) [
    | inl one ↦
        rw (positive-small p.control_pending sync.small, not_zero p.control_pending one, one)
          (last v ends one)
    | inr other ↦ elim (Bool-cases (p.control_pending == 0)) [
      | inl zero_ ↦
          unchanged ewouldblock (rw (positive-small p.control_pending sync.small, zero_) refl)
            (nothing_before p.control_pending _ zero_)
      | inr some_ ↦
          let count = previous p.control_pending some_ sync.small in
          (
            record p { control_pending = (p.control_pending + 2 ^ 32 - 1) % 2 ^ 32 },
            rw (positive-small p.control_pending sync.small, some_, other) refl,
            synced _ (p.control_pending - 1) count (omega (arith, sync.small))
                (ground (arith, sync.bytes, some_, other)),
            rw other count,
            refl,
          )
    ]
  ]
    where
      last :
          (v : Option ℕ)
          → verdict io ≡ some v
          → (p.control_pending == 1) ≡ true
          → Leaves p
              (one_body io p)
              (went_through v)
              (if went_through v then p.control_pending - 1 else p.control_pending)
      last none ends one =
          let (e, runs) = release_event-runs io none p ends in
          let count = previous p.control_pending (not_zero p.control_pending one) sync.small in
          (
            record p {
              control_bytes = p.control_bytes - 1;
              errno = e;
              control_pending = (p.control_pending + 2 ^ 32 - 1) % 2 ^ 32;
            },
            rw runs refl,
            synced _ (p.control_pending - 1) count (omega (arith, sync.small))
                (ground (arith, sync.bytes, one)),
            count,
            refl,
          )
      last (some c) ends one =
          let (e, runs) = release_event-runs io (some c) p ends in unchanged e (rw runs refl) refl

-- raiseWakeup, releaseWakeup and releaseAllWakeup keep the invariant whatever the socket does, as
-- long as its calls come to an end: a raise counts one more wake-up, a release one less and a release
-- of all leaves none, unless a call fails (there is room for one more in an int); without a pending wake-up a release is refused.
pub wakeup-Synced :
    (io : List Io) (v : Option ℕ) (p : Poll)
    → IsSynced p
    → p.control_pending + 1 < 2 ^ 31
    → verdict io ≡ some v
    → let n = p.control_pending in
      let through = went_through v in
      Leaves p
        (raise_wakeup io p)
        (not (n == 0) || through)
        (if not (n == 0) || through then n + 1 else n)
      × Leaves p
          (release_wakeup io p)
          (not (n == 0) && (not (n == 1) || through))
          (if not (n == 1) || through then n - 1 else n)
      × Leaves p (release_all_wakeup io p) (not (n == 0) && through) (if through then 0 else n)
wakeup-Synced io v p sync room ends = (
  raise_wakeup-Leaves io p sync room v ends,
  release_wakeup-Leaves io p sync v ends,
  release_all_wakeup-Leaves io p sync v ends,
)
