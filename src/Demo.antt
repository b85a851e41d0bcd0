-- ===== src/Demo.antt =====
-- MyThread of main.cpp, the demonstration: a thread that counts its rounds and never ends by itself.
-- What it prints is left out.
use tools_on_linux.Prelude.{
  ℕ, zero, suc, ◌+◌, ◌-◌, ◌^◌, ◌<◌, Bool, true, false, Option, none, some, List, [], ◌∷◌, ◌==◌,
  if◌then◌else◌, if_false, ◌≡◌, refl, sym, ap, ◌∙◌, subst, arith,
}
use tools_on_linux.Thread.State.{Thread}
use tools_on_linux.Thread.Loop.{
  Call, ready_to_run, thread_loop, ready_to_exit, starting, looping, loop_runs, loop_step,
  test_exit,
}
use tools_on_linux.Thread.Life.{loop_calls}

-- The field beside those of Thread.
pub record MyThread : Type 0 where
  pub cnt : ℕ

abbrev pub my_thread : ℕ → MyThread
my_thread cnt = record { cnt = cnt }

-- readyToRun; the constructor leaves cnt without a value.
unfoldable pub my_ready_to_run : MyThread → MyThread
my_ready_to_run m = record m { cnt = 0 }

-- threadLoop: `none` where `++cnt` overflows an int.
unfoldable pub my_thread_loop : MyThread → Option (Bool × MyThread)
my_thread_loop m = if m.cnt == 2 ^ 31 - 1 then none else some (true, record m { cnt = m.cnt + 1 })

-- What the calls of the started thread do to the object.
unfoldable pub my_calls : List Call → MyThread → Option MyThread
my_calls [] m = some m
my_calls (ready_to_run ∷ cs) m = my_calls cs (my_ready_to_run m)
my_calls (thread_loop ∷ cs) m = elim (my_thread_loop m) [
  | none ↦ none
  | some (b, m') ↦ my_calls cs m'
]
my_calls (ready_to_exit ∷ cs) m = my_calls cs m

my_thread_loop-counts :
    (k : ℕ) → k < 2 ^ 31 - 1 → my_thread_loop (my_thread k) ≡ some (true, my_thread (k + 1))
unfolding my_thread_loop
my_thread_loop-counts k small = if_false (k == 2 ^ 31 - 1) none _ (ground (arith, small))

add_zero : (k : ℕ) → k ≡ k + 0
add_zero k = omega arith

zero_add : (k : ℕ) → 0 + k ≡ k
zero_add k = omega arith

shift : (k n : ℕ) → k + 1 + n ≡ k + suc n
shift k n = omega arith

counts :
    (n k : ℕ) → k + n < 2 ^ 31 → my_calls (loop_calls n) (my_thread k) ≡ some (my_thread (k + n))
unfolding my_calls
counts zero k small = ap (λ j. some (my_thread j)) (add_zero k)
counts (suc n) k small =
    rw (my_thread_loop-counts k (omega (arith, small)), my_calls)
      (counts n (k + 1) (omega (arith, small)) ∙ ap (λ j. some (my_thread j)) (shift k n))

-- The steps of `n` rounds of the loop, from its end on.
abbrev pub round_steps : ℕ → ℕ
round_steps zero = 0
round_steps (suc n) = suc (suc (suc (round_steps n)))

abbrev alive : Thread → Thread
alive t = record t { exit_pending = false; running = true }

rounds_go_on :
    (n j : ℕ) (t : Thread)
    → loop_runs (round_steps n) (λ i. true) j (alive t) looping ≡ (loop_calls n, (alive t, looping))
unfolding loop_runs loop_step test_exit
rounds_go_on zero j t = refl
rounds_go_on (suc n) j t = ap (λ r. (thread_loop ∷ r.0, r.1)) (rounds_go_on n (j + 1) t)

-- A started MyThread that nobody asks to exit goes on for as many rounds as there are: after any number
-- of them it is in its loop, has called threadLoop once in each, and cnt is that number, while it fits
-- an int.
pub my_rounds-go_on :
    (n : ℕ) (m : MyThread) (t : Thread)
    → t.exit_pending ≡ false
    → n < 2 ^ 31
    → let r = loop_runs (suc (suc (suc (round_steps n)))) (λ i. true) 0 t starting in
      (r ≡ (ready_to_run ∷ loop_calls n, (record t { running = true }, looping)))
      × (my_calls r.0 m ≡ some (my_thread n))
unfolding loop_runs loop_step test_exit my_calls my_ready_to_run
my_rounds-go_on n m t calm small =
    let runs =
      subst
        (λ b.
          loop_runs (suc (suc (suc (round_steps n)))) (λ i. true) 0 (record t { exit_pending = b })
            starting
          ≡ (ready_to_run ∷ loop_calls n, (record t { exit_pending = b; running = true }, looping)))
        (sym calm) (ap (λ r. (ready_to_run ∷ r.0, r.1)) (rounds_go_on n 0 t)) in
    (
      runs,
      ap (λ r. my_calls r.0 m) runs
          ∙ counts n 0 (omega (arith, small))
          ∙ ap (λ k. some (my_thread k)) (zero_add n),
    )
