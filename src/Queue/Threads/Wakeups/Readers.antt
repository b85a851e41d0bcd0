-- ===== src/Queue/Threads/Wakeups/Readers.antt =====
-- A pop keeps the readers and the writers served.
use tools_on_linux.Queue.Threads.Answers.{empty_answer}
use tools_on_linux.Queue.Threads.Wakeups.Fairness.{
  woken_reader, popped-Fair, outside, caller-Sleeps, caller-Leaves, Fair, Caller,
}
use tools_on_linux.Queue.Threads.System.{
  settled, reads, pops, is_asleep, asleep, running, same_cond, Thread,
}
use tools_on_linux.Queue.Threads.Census.{is_awake, Effect}
use tools_on_linux.Queue.State.{Queue, signal, cond_put, cond_get, Cond}
use tools_on_linux.Prelude.{
  sym, subst, true, Bool, ◌++◌, [], false, ◌∷◌, ◌≡◌, ℕ, List, arith, ◌≤◌, suc, refl, ◌∙◌,
}

-- A reader goes to sleep on an empty queue.
pub reader_sleeps :
    (q : Queue) (w : Bool) (lost : ℕ) (u : Thread) (pre post : List Thread)
    → Caller (pops w) u
    → Fair 0 q.capability lost (pre ++ u ∷ post)
    → Fair 0 q.capability lost (pre ++ asleep cond_get reads ∷ post)
reader_sleeps q w lost u pre post caller fair =
    let sleeps = caller-Sleeps reads u pre post (others caller) in
    let s = sleeps.others cond_put refl in
    record {
      readers = λ some_. omega arith;
      writers = λ some_. ground (arith, s, fair.writers, some_);
      placed = omega (arith, sleeps.placed, fair.placed);
    }
  where
    others :
        {w : Bool} {u : Thread}
        → Caller (pops w) u
        → (d : Cond) → same_cond cond_get d ≡ false
        → (is_asleep d u ≡ 0) × (is_awake d u ≡ 0)
    others (outside req) d apart = (refl, refl)
    others woken_reader cond_put apart = (refl, refl)
    others woken_reader cond_get apart = cc

-- No writer calls pop.
pop_caller :
    {w : Bool} {u : Thread}
    → Caller (pops w) u
    → (is_awake cond_put u ≡ 0) × (is_awake cond_get u ≤ 1)
pop_caller (outside req) = (refl, omega arith)
pop_caller woken_reader = (refl, omega arith)

module _ (q : Queue) (w : Bool) (n lost : ℕ) (u : Thread) (pre post us : List Thread)
    (caller : Caller (pops w) u) where
  pub pop_done :
      Fair (suc n) q.capability lost (pre ++ u ∷ post)
      → Effect (signal cond_put ∷ []) (pre ++ running ∷ post) us
      → Fair n q.capability lost us
  pop_done fair e =
      let l = caller-Leaves (pops w) u pre post caller in
      let c = pop_caller caller in
      popped-Fair n q.capability lost (pre ++ running ∷ post) us (sym l.placed ∙ fair.placed) e
        (λ some_. ground (arith, l.gets, l.awake_gets, c, fair.readers, some_))
        (λ some_. ground (arith, l.puts, l.awake_puts, c, fair.writers, some_))

  -- An empty queue that new data may not enter.
  pub pop_refused :
      Fair 0 q.capability lost (pre ++ u ∷ post)
      → us ≡ pre ++ running ∷ post
      → Fair 0 q.capability lost us
  pop_refused fair same =
      let l = caller-Leaves (pops w) u pre post caller in
      let c = pop_caller caller in
      subst (Fair 0 q.capability lost) (sym same) (record {
        readers = λ some_. omega arith;
        writers = λ some_. ground (arith, l.puts, l.awake_puts, c, fair.writers, some_);
        placed = sym l.placed ∙ fair.placed;
      })

pub empty_goes :
    (q : Queue) (w allowed : Bool) (lost : ℕ) (u : Thread) (pre post us : List Thread)
    → Caller (pops w) u
    → Fair 0 q.capability lost (pre ++ u ∷ post)
    → us ≡ pre ++ settled (pops w) (empty_answer w allowed).reply ∷ post
    → Fair 0 q.capability lost us
empty_goes q true true lost u pre post us caller fair same =
    subst (Fair 0 q.capability lost) (sym same) (reader_sleeps q true lost u pre post caller fair)
empty_goes q true false lost u pre post us caller fair same =
    pop_refused q true 0 lost u pre post us caller fair same
empty_goes q false allowed lost u pre post us caller fair same =
    pop_refused q false 0 lost u pre post us caller fair same
