-- ===== src/Queue/Threads/Wakeups/Writers.antt =====
-- A push keeps the readers and the writers served.
use tools_on_linux.Queue.Threads.Wakeups.Fairness.{
  woken_writer, pushed-Fair, outside, caller-Sleeps, caller-Leaves, Fair, Caller,
}
use tools_on_linux.Queue.Order.{length-inserted_as, inserted}
use tools_on_linux.Prelude.Int.{ℤ}
use tools_on_linux.Queue.Pushing.{push_events, push_contents}
use tools_on_linux.Memory.{null, Ptr}
use tools_on_linux.Queue.Threads.System.{
  writes, pushes, announcing, woken, is_asleep, asleep, running, same_cond, Thread,
}
use tools_on_linux.Queue.Threads.Steps.{wasted}
use tools_on_linux.Queue.Threads.Census.{is_awake, Effect}
use tools_on_linux.Queue.State.{
  q_err_mem, is_ok, returned, Reply, Queue, signal, cond_put, cond_get, Cond,
}
use tools_on_linux.Prelude.{
  sym, Bool-cases, if_false, subst, length, Bool, ◌+◌, if◌then◌else◌, ◌++◌, inr, inl, [], false,
  ◌+◌, ◌∷◌, ◌≡◌, ℕ, List, arith, ◌≤◌, refl, ◌∙◌,
}

-- The chances to push that the caller was woken for and did not use.
abbrev pub lost_by : Thread → Reply (ℤ × ℕ) → ℕ
lost_by (woken t) reply = wasted t reply
lost_by running reply = 0
lost_by (asleep d t) reply = 0
lost_by announcing reply = 0

-- A writer goes to sleep on a full queue.
pub writer_sleeps :
    (q : Queue) (w : Bool) (new : Ptr) (ele lost : ℕ) (u : Thread) (pre post : List Thread)
    → Caller (pushes w new ele) u
    → q.used_element_cnts ≡ q.capability
    → Fair q.used_element_cnts q.capability lost (pre ++ u ∷ post)
    → Fair q.used_element_cnts q.capability lost (pre ++ asleep cond_put (writes ele) ∷ post)
writer_sleeps q w new ele lost u pre post caller full fair =
    let sleeps = caller-Sleeps (writes ele) u pre post (others caller) in
    let s = sleeps.others cond_get refl in
    record {
      readers = λ some_. ground (arith, s, fair.readers, some_);
      writers = λ some_. omega (arith, full);
      placed = omega (arith, sleeps.placed, fair.placed);
    }
  where
    others :
        {w : Bool} {u : Thread}
        → Caller (pushes w new ele) u
        → (d : Cond) → same_cond cond_put d ≡ false
        → (is_asleep d u ≡ 0) × (is_awake d u ≡ 0)
    others (outside req) d apart = (refl, refl)
    others (woken_writer new ele) cond_get apart = (refl, refl)
    others (woken_writer new ele) cond_put apart = cc

pub Fair-more :
    (n capability lost more : ℕ) (ts : List Thread)
    → Fair n capability lost ts
    → Fair n capability (lost + more) ts
Fair-more n capability lost more ts fair = record {
  readers = fair.readers;
  writers = λ some_. ground (arith, fair.writers, some_);
  placed = fair.placed;
}

-- No reader calls push, and a woken writer that does not push wastes one chance.
push_caller :
    {w : Bool} {new : Ptr} {ele : ℕ} {u : Thread}
    → Caller (pushes w new ele) u
    → (code : ℤ) → is_ok code ≡ false
    → (is_awake cond_get u ≡ 0)
      × (is_awake cond_put u ≤ 1)
      × (lost_by u (returned (code, null)) ≡ is_awake cond_put u)
push_caller (outside req) code e = (refl, omega arith, refl)
push_caller (woken_writer new ele) code e = (refl, omega arith, if_false _ _ _ e)

module _ (q : Queue) (w : Bool) (new : Ptr) (ele lost : ℕ) (xs : List ℕ) (u : Thread)
    (pre post us : List Thread) (caller : Caller (pushes w new ele) u)
    (count : length xs ≡ q.used_element_cnts)
    (fair : Fair q.used_element_cnts q.capability lost (pre ++ u ∷ post)) where
  push_done :
      Effect (signal cond_get ∷ []) (pre ++ running ∷ post) us
      → Fair (length (inserted q ele xs)) q.capability lost us
  push_done e =
      let l = caller-Leaves (pushes w new ele) u pre post caller in
      let c = push_caller caller q_err_mem refl in
      subst (λ n. Fair n q.capability lost us)
        (omega (arith, length-inserted_as q.sort q.ascending_order q.cmp_ele_fun ele xs))
        (pushed-Fair q.used_element_cnts q.capability lost (pre ++ running ∷ post) us
          (sym l.placed ∙ fair.placed) e
          (λ some_. ground (arith, l.gets, l.awake_gets, c, fair.readers, some_))
          (λ some_. ground (arith, l.puts, l.awake_puts, c, fair.writers, some_)))

  push_refused :
      (code : ℤ)
      → is_ok code ≡ false
      → us ≡ pre ++ running ∷ post
      → Fair (length xs) q.capability (lost + lost_by u (returned (code, null))) us
  push_refused code e same =
      let l = caller-Leaves (pushes w new ele) u pre post caller in
      let c = push_caller caller code e in
      subst (λ ts. Fair (length xs) q.capability (lost + lost_by u (returned (code, null))) ts)
        (sym same)
        (record {
          readers = λ some_. ground (arith, l.gets, l.awake_gets, c, fair.readers, some_);
          writers = λ some_. ground (arith, l.puts, l.awake_puts, c, fair.writers, some_);
          placed = sym l.placed ∙ fair.placed;
        })

  -- A push that is done or refused.
  pub push_goes :
      (code : ℤ)
      → Effect (push_events code) (pre ++ running ∷ post) us
      → Fair
          (length (push_contents code q ele xs))
          q.capability
          (lost + lost_by u (returned (code, null)))
          us
  push_goes code = elim (Bool-cases (is_ok code)) [
    | inl stored ↦ rw stored (λ e. Fair-more _ q.capability lost _ us (push_done e))
    | inr refused ↦ λ e. rw refused (
        push_refused code refused (
          subst (λ b. Effect (if b then signal cond_get ∷ [] else []) (pre ++ running ∷ post) us)
            refused e))
  ]
