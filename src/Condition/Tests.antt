-- ===== src/Condition/Tests.antt =====
-- Timed waits on a machine with one thread.
use tools_on_linux.Prelude.{◌≡◌, refl, true, arith}
use tools_on_linux.Prelude.Int.{pos, negsuc}
use tools_on_linux.Pthread.Machine.{Machine, machine, alone}
use tools_on_linux.Condition.Calls.{
  wait, signal, broadcast, delete_condition, new_condition, new_condition_of, wait_relative,
  wait_relative_us,
}
use tools_on_linux.Condition.Timed.{Waits, Refuses, wait_relative-Waits, wait_relative-Refuses}

-- 5.0009 seconds.
abbrev inside : Machine
inside = machine true 5000900000

wait_relative-Waits_example :
    Waits alone inside 1250000000 (wait_relative alone (new_condition_of 1) (pos 1250) inside)
    × Waits alone inside 1250000 (wait_relative_us alone (new_condition_of 1) (pos 1250) inside)
wait_relative-Waits_example =
    wait_relative-Waits alone 1 1250 inside refl (omega arith) (omega arith)

wait_relative-Refuses_example :
    Refuses alone 1 1000 (wait_relative alone new_condition (negsuc 0) inside)
    × Refuses alone 999 1000000 (wait_relative_us alone new_condition (negsuc 998) inside)
wait_relative-Refuses_example =
    wait_relative-Refuses alone new_condition 0 998 inside refl (omega arith) (omega arith)

-- Nobody else is there to be woken.
other_calls :
    ((wait alone inside).1 ≡ inside)
    × (signal alone inside ≡ inside)
    × (broadcast alone inside ≡ inside)
    × (delete_condition alone inside ≡ inside)
unfolding wait signal broadcast delete_condition
other_calls = (refl, refl, refl, refl)
