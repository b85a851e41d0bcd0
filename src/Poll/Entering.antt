-- ===== src/Poll/Entering.antt =====
-- The test of mWaiting at the head of Poll::wait.
use tools_on_linux.Poll.State.{Poll}
use tools_on_linux.Poll.Wait.{
  Stage, Answer, Setter, outside, loaded, entered, polling, wait_step, system, Reach, here, later,
  waiter_step,
}
use tools_on_linux.Prelude.{List, [], ◌∷◌, ◌≡◌, sym, subst}

-- The same with both fields written out.
both_enter :
    (a : Answer) (p : Poll) (ws : List Stage) (st : Setter)
    → let q = record p { waiting = 0; flushing = 0 } in
      Reach
        (system q (outside ∷ outside ∷ ws) st)
        (system (record q { waiting = 2 }) (polling ∷ polling ∷ ws) st)
unfolding wait_step
both_enter a p ws st =
    let q = record p { waiting = 0; flushing = 0 } in
    let q' = record q { waiting = 1 } in
    let q'' = record q { waiting = 2 } in
    later
      (later
        (later
          (later
            (later (later here (waiter_step a q [] (outside ∷ ws) outside st))
              (waiter_step a q (loaded 0 ∷ []) ws outside st))
            (waiter_step a q [] (loaded 0 ∷ ws) (loaded 0) st))
          (waiter_step a q' (entered ∷ []) ws (loaded 0) st))
        (waiter_step a q'' [] (entered ∷ ws) entered st))
      (waiter_step a q'' (polling ∷ []) ws entered st)

-- Two threads that call wait while nobody waits and nobody flushes can both come to poll(2), with
-- mWaiting at 2, though a second thread is to be refused: the load of mWaiting and its increment are two
-- steps.
pub both_polling :
    (a : Answer) (p : Poll) (ws : List Stage) (st : Setter)
    → p.waiting ≡ 0
    → p.flushing ≡ 0
    → Reach
        (system p (outside ∷ outside ∷ ws) st)
        (system (record p { waiting = 2 }) (polling ∷ polling ∷ ws) st)
both_polling a p ws st nobody calm =
    subst
      (λ q.
        Reach (system q (outside ∷ outside ∷ ws) st)
          (system (record q { waiting = 2 }) (polling ∷ polling ∷ ws) st))
      (λ i. record p { waiting = sym nobody i; flushing = sym calm i }) (both_enter a p ws st)
