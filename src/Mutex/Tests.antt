-- ===== src/Mutex/Tests.antt =====
-- A scope on a machine with one thread.
use tools_on_linux.Prelude.{ℕ, ◌≡◌, refl, true, false}
use tools_on_linux.Pthread.Machine.{Machine, machine, alone}
use tools_on_linux.Mutex.{autolock, autolock-holds, unlock, delete_mutex}

-- The body looks at the clock.
abbrev body : Machine → ℕ × Machine
body m = (m.now, m)

clock_read_locked :
    (t : Machine) × (t.held ≡ true)
    × ((autolock alone body (machine false 7)).0 ≡ (body t).0)
    × ((autolock alone body (machine false 7)).1.held ≡ false)
clock_read_locked = autolock-holds alone body (machine false 7) refl (λ t held. held)

unlocked_and_destroyed : delete_mutex alone (unlock alone (machine true 7)) ≡ machine false 7
unfolding unlock delete_mutex
unlocked_and_destroyed = refl
