-- ===== src/Queue/Threads/Tests.antt =====
-- The theorems applied to those runs.
use tools_on_linux.Queue.Threads.Census.{sleepers}
use tools_on_linux.Queue.Threads.Runs.{
  counts_closed, writer_woken, three_outside, writer_woken-Reach, all_awake-Reach,
  both_asleep-Reach, one_place-IsValid, one_place, holds_five, five_taken, five_pushed, closed,
  both_asleep, all_awake,
}
use tools_on_linux.Prelude.Int.{pos}
use tools_on_linux.Queue.Threads.Answers.{answer}
use tools_on_linux.Queue.Threads.Progress.{Reach-goes_on}
use tools_on_linux.Queue.Threads.Closing.{Reach-closed}
use mathlib.Core.List.{Perm}
use tools_on_linux.Queue.Threads.Refines.{perform-answer}
use tools_on_linux.Queue.Threads.Wakeups.Reached.{Reach-no_lost_wakeup}
use tools_on_linux.Memory.Chain.{contents, Cells}
use tools_on_linux.Prelude.Outcome.{ok}
use tools_on_linux.Queue.Threads.Held.{Reach-conserves}
use tools_on_linux.Queue.Threads.System.{
  counts, settled, Delivers, writes, running, reads, pops, perform, asleep, Thread,
}
use tools_on_linux.Queue.State.{returned, cond_put, waits, cond_get, Queue}
use tools_on_linux.Queue.Represents.{After, IsValid}
use tools_on_linux.Queue.Threads.Steps.{after_resume, Step, system}
use tools_on_linux.Memory.{null}
use tools_on_linux.Prelude.{◌⊎◌, ◌≤◌, List, ◌≡◌, [], ◌∷◌, true, false, refl}

Reach-conserves_example :
    (ds : Cells) × IsValid five_taken ds
    × Perm (5 ∷ []) (5 ∷ contents ds)
    × ((one_place.sort ≡ true) ⊎ (5 ∷ [] ≡ 5 ∷ contents ds))
Reach-conserves_example =
    Reach-conserves one_place [] three_outside writer_woken one_place-IsValid writer_woken-Reach

Reach-no_lost_wakeup_example :
    ((sleepers cond_get both_asleep.threads ≡ 0) ⊎ (1 ≤ 1))
    × ((sleepers cond_put both_asleep.threads ≡ 0) ⊎ (1 ≤ 1))
Reach-no_lost_wakeup_example =
    Reach-no_lost_wakeup one_place [] three_outside both_asleep one_place-IsValid refl refl
      both_asleep-Reach

Reach-goes_on_example :
    (ds : Cells) × (r : Queue) × (us : List Thread) × (let a =
        answer (pops true) holds_five (contents ds) in
      IsValid holds_five ds
      × (holds_five.locked ≡ false)
      × Delivers a.events
          (settled (pops true) a.reply ∷ asleep cond_get reads ∷ asleep cond_put (writes 6) ∷ [])
          us
      × After holds_five ds a.contents a.events r
      × (r.locked ≡ false)
      × Step both_asleep (system r us (after_resume reads null holds_five a.reply five_pushed)))
Reach-goes_on_example =
    Reach-goes_on one_place [] three_outside both_asleep reads null []
      (asleep cond_get reads ∷ asleep cond_put (writes 6) ∷ []) one_place-IsValid refl
      both_asleep-Reach refl (λ ne. absurd (ne refl))

perform-answer_example :
    (r : Queue) × (perform (pops true) one_place ≡ ok (waits cond_get) r)
    × After one_place [] [] [] r
    × (r.locked ≡ false)
unfolding answer
perform-answer_example = perform-answer (pops true) one_place [] one_place-IsValid tt

Reach-closed_example :
    (sleepers cond_get all_awake.threads ≡ 0)
    × (sleepers cond_put all_awake.threads ≡ 0)
    × (running ≡ running)
Reach-closed_example =
    Reach-closed one_place [] three_outside all_awake counts (returned (pos 0, null)) closed
      one_place-IsValid refl refl all_awake-Reach refl refl tt counts_closed
