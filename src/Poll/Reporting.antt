-- ===== src/Poll/Reporting.antt =====
-- What isReadable and isWritable say after a wait.
use Prim.Native.Nat.{bit_and}
use tools_on_linux.Prelude.{ℕ, ◌+◌, ◌<◌, ◌≤◌, Bool, true, false, ◌≡◌, ◌≢◌, ◌⊎◌}
use tools_on_linux.Prelude.Outcome.{ok}
use tools_on_linux.Poll.State.{Poll, Fds, Run}

-- The entry has that descriptor and one of the events.
abbrev pub Has : Fds → (fd mask : ℕ) → ℕ → Type 0
Has f fd mask k = ((f k).fd ≡ fd) × (bit_and (f k).revents mask ≢ 0)

-- Some entry of the `n` from `i` on has it, or none.
abbrev pub Tells : Fds → (fd mask n i : ℕ) → Bool → Type 0
Tells f fd mask n i b =
    ((b ≡ true) × (k : ℕ) × (i ≤ k) × (k < i + n) × Has f fd mask k)
    ⊎ ((b ≡ false) × ((k : ℕ) → i ≤ k → k < i + n → (f k).fd ≡ fd → bit_and (f k).revents mask ≡ 0))

-- What a question about an entry gives, with the object as it is.
abbrev pub Says : Poll → Run Bool → Fds → (fd mask : ℕ) → Type 0
Says r run f fd mask =
    ((run ≡ ok true r) × (k : ℕ) × (k < r.fds_cnt) × Has f fd mask k)
    ⊎ ((run ≡ ok false r)
        × ((k : ℕ) → k < r.fds_cnt → (f k).fd ≡ fd → bit_and (f k).revents mask ≡ 0))
