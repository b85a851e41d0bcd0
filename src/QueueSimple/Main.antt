-- ===== src/QueueSimple/Main.antt =====
-- The loop of main in QueueSimple.cpp that waits for the threads.
use tools_on_linux.Prelude.{
  ℕ, ◌+◌, ◌<◌, ◌≤◌, ◌≡◌, Bool, true, false, Option, none, some, List, [], ◌∷◌, ◌++◌, ltb, leb,
  if◌then◌else◌, ◌&&◌, arith, refl, ◌∙◌, if_true, if_false, ◌⊎◌,
}

abbrev pub max_type : ℕ
max_type = 10

-- What isRunning gives in one round, for the producers and for the consumers.
pub record Seen : Type 0 where
  pub producers : List Bool
  pub consumers : List Bool

-- The inner loop: how many are not running.
unfoldable pub not_running : List Bool → ℕ
not_running [] = 0
not_running (true ∷ running) = not_running running
not_running (false ∷ running) = not_running running + 1

-- The outer loop with proFound and comFound, over what is seen; `none` where it goes on.
unfoldable pub main_wait : (pro_found com_found : ℕ) → List Seen → Option (ℕ × ℕ)
main_wait pro_found com_found [] =
    if ltb pro_found max_type && ltb com_found max_type then none else some (pro_found, com_found)
main_wait pro_found com_found (s ∷ seen) =
    let pro = not_running s.producers in
    let con = not_running s.consumers in
    let rest = main_wait pro con seen in
    if ltb pro_found max_type && ltb com_found max_type
    then (if leb max_type pro && leb max_type con then some (pro, con) else rest)
    else some (pro_found, com_found)

-- A round in which a thread of either kind runs.
abbrev pub BothRun : List Seen → Type 0
BothRun [] = Unit {0}
BothRun (s ∷ seen) =
    (not_running s.producers < max_type) × (not_running s.consumers < max_type) × BothRun seen

goes_past :
    (p c : ℕ) (s : Seen) (seen : List Seen)
    → p < max_type
    → c < max_type
    → not_running s.producers < max_type
    → main_wait p c (s ∷ seen) ≡ main_wait (not_running s.producers) (not_running s.consumers) seen
unfolding main_wait
goes_past p c s seen pro con runs =
    if_true (ltb p max_type && ltb c max_type) _ _ (ground (arith, pro, con))
    ∙ if_false (leb max_type (not_running s.producers) && leb max_type (not_running s.consumers)) _
        _ (ground (arith, runs))

stops :
    (p c : ℕ) (seen : List Seen)
    → (max_type ≤ p) ⊎ (max_type ≤ c)
    → main_wait p c seen ≡ some (p, c)
unfolding main_wait
stops p c [] all_out = if_false (ltb p max_type && ltb c max_type) _ _ (ground (arith, all_out))
stops p c (s ∷ seen) all_out =
    if_false (ltb p max_type && ltb c max_type) _ _ (ground (arith, all_out))

either_way : {A : Type 0} (b : Bool) {x y : A} → y ≡ x → (if b then x else y) ≡ x
either_way true e = refl
either_way false e = e

-- The loop ends with the first round that sees no producer or no consumer running, and does not wait for
-- the others.
pub main_wait-first :
    (p c : ℕ) (earlier : List Seen) (s : Seen) (later : List Seen)
    → p < max_type
    → c < max_type
    → BothRun earlier
    → (max_type ≤ not_running s.producers) ⊎ (max_type ≤ not_running s.consumers)
    → main_wait p c (earlier ++ s ∷ later) ≡ some (not_running s.producers, not_running s.consumers)
unfolding main_wait
main_wait-first p c (t ∷ earlier) s later pro con (pro', con', run) all_out =
    goes_past p c t (earlier ++ s ∷ later) pro con pro'
    ∙ main_wait-first (not_running t.producers) (not_running t.consumers) earlier s later pro' con'
        run all_out
main_wait-first p c [] s later pro con run all_out =
    if_true (ltb p max_type && ltb c max_type) _ _ (ground (arith, pro, con))
    ∙ either_way (leb max_type (not_running s.producers) && leb max_type (not_running s.consumers))
        (stops (not_running s.producers) (not_running s.consumers) later all_out)
