-- ===== src/Poll/Counting.antt =====
-- The waiting threads by number, and what one step of a thread does to them.
use tools_on_linux.Prelude.{suc, ap}
use tools_on_linux.Poll.Wait.{outside, loaded, entered, polling, polled, leaving, finished}
use tools_on_linux.Poll.State.{positive, Poll}
use tools_on_linux.Poll.Wait.{finished, leaving, polled, loaded, wait_step, Stage, Answer}
use tools_on_linux.Prelude.{
  ℕ, ◌+◌, ◌^◌, ◌<◌, ◌≤◌, Bool, true, false, List, [], ◌∷◌, ◌++◌, ◌||◌, ◌≡◌, refl, arith, inl, inr,
  Bool-cases, length,
}

-- A thread that has counted itself, and one in poll(2).
abbrev pub counted : Stage → ℕ
counted outside = 0
counted (loaded old) = 0
counted entered = 1
counted polling = 1
counted (polled n) = 1
counted (leaving n e) = 1
counted (finished n e) = 0

abbrev pub in_poll : Stage → Bool
in_poll polling = true
in_poll outside = false
in_poll (loaded old) = false
in_poll entered = false
in_poll (polled n) = false
in_poll (leaving n e) = false
in_poll (finished n e) = false

abbrev pub inside : List Stage → ℕ
inside [] = 0
inside (w ∷ ws) = counted w + inside ws

abbrev pub any_in_poll : List Stage → Bool
any_in_poll [] = false
any_in_poll (w ∷ ws) = in_poll w || any_in_poll ws

pub inside-append : (xs ys : List Stage) → inside (xs ++ ys) ≡ inside xs + inside ys
inside-append [] ys = omega arith
inside-append (x ∷ xs) ys = omega (arith, inside-append xs ys)

any_in_poll-append :
    (xs ys : List Stage) → any_in_poll (xs ++ ys) ≡ (any_in_poll xs || any_in_poll ys)
any_in_poll-append [] ys = refl
any_in_poll-append (x ∷ xs) ys = ground (arith, any_in_poll-append xs ys)

counted_bound : (w : Stage) → counted w ≤ 1
counted_bound outside = omega arith
counted_bound (loaded old) = omega arith
counted_bound entered = omega arith
counted_bound polling = omega arith
counted_bound (polled n) = omega arith
counted_bound (leaving n e) = omega arith
counted_bound (finished n e) = omega arith

pub inside_bound : (ws : List Stage) → inside ws ≤ length ws
inside_bound [] = omega arith
inside_bound (w ∷ ws) = omega (arith, inside_bound ws, counted_bound w)

-- Whoever is in poll(2) is counted.
pub in_poll-counted : (ws : List Stage) → any_in_poll ws ≡ true → 0 < inside ws
in_poll-counted [] e = cc
in_poll-counted (w ∷ ws) e = elim (Bool-cases (in_poll w)) [
  | inl now ↦ omega (arith, one w now)
  | inr other ↦ omega (arith, in_poll-counted ws (rw other at e))
]
  where
    one : (w : Stage) → in_poll w ≡ true → counted w ≡ 1
    one outside e = cc
    one (loaded old) e = cc
    one entered e = refl
    one polling e = refl
    one (polled n) e = refl
    one (leaving n e') e = refl
    one (finished n e') e = cc

-- What a step of one waiter does to the counts.
pub wait_step-counted :
    (a : Answer) (p : Poll) (now : Stage) (rest : ℕ)
    → p.waiting ≡ rest + counted now
    → rest < 2 ^ 31
    → (wait_step a p now).0.waiting ≡ rest + counted (wait_step a p now).1
unfolding wait_step
wait_step-counted a p outside rest e small = e
wait_step-counted a p (loaded old) rest e small = ground (arith, e)
wait_step-counted a p entered rest e small = ground (arith, e)
wait_step-counted a p polling rest e small = e
wait_step-counted a p (polled n) rest e small = ground (arith, e)
wait_step-counted a p (leaving n c) rest e small = ground (arith, e)
wait_step-counted a p (finished n c) rest e small = e

-- A step of a waiter changes mWaiting and the entries, nothing else.
pub wait_step-keeps :
    (a : Answer) (p : Poll) (now : Stage)
    → (wait_step a p now).0
      ≡ record p { waiting = (wait_step a p now).0.waiting; fds = (wait_step a p now).0.fds }
unfolding wait_step
wait_step-keeps a p outside = refl
wait_step-keeps a p (loaded old) = refl
wait_step-keeps a p entered = refl
wait_step-keeps a p polling = refl
wait_step-keeps a p (polled n) = refl
wait_step-keeps a p (leaving n c) = refl
wait_step-keeps a p (finished n c) = refl

-- While the flag is set nobody goes into poll(2).
pub wait_step-in_poll :
    (a : Answer) (p : Poll) (now : Stage) → p.flushing ≡ 1 → in_poll (wait_step a p now).1 ≡ false
unfolding wait_step
wait_step-in_poll a p outside set_ = refl
wait_step-in_poll a p (loaded old) set_ = elim (Bool-cases (positive old)) [
  | inl e ↦ rw e refl
  | inr e ↦ rw e refl
]
wait_step-in_poll a p entered set_ = rw set_ refl
wait_step-in_poll a p polling set_ = refl
wait_step-in_poll a p (polled n) set_ = rw set_ refl
wait_step-in_poll a p (leaving n c) set_ = refl
wait_step-in_poll a p (finished n c) set_ = refl

pub length-replaced :
    (pre post : List Stage) (a b : Stage) → length (pre ++ a ∷ post) ≡ length (pre ++ b ∷ post)
length-replaced [] post a b = refl
length-replaced (x ∷ pre) post a b = ap suc (length-replaced pre post a b)

-- Who is in poll(2) after a step was there before.
pub still_in_poll :
    (pre post : List Stage) (a b : Stage)
    → in_poll b ≡ false
    → any_in_poll (pre ++ b ∷ post) ≡ true
    → any_in_poll (pre ++ a ∷ post) ≡ true
still_in_poll [] post a b out e = ground (arith, out, e)
still_in_poll (x ∷ pre) post a b out e = ground (arith, still_in_poll pre post a b out)
