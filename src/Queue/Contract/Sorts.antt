-- ===== src/Queue/Contract/Sorts.antt =====
-- Queue::push into a sorted queue.
use tools_on_linux.Queue.Contract.Locking.{sealed}
use tools_on_linux.Queue.Contract.Pushes.{push-After}
use tools_on_linux.Queue.Calls.{push}
use tools_on_linux.Queue.Order.{inserted, inserted_as}
use tools_on_linux.Queue.Pushing.{Allocates, push_code, push_contents, push_events}
use tools_on_linux.Queue.Represents.{After, IsValid}
use tools_on_linux.Queue.Sorting.{
  IsComparator, IsSorted, ordered_insert, insert_sorted-ordered_insert, ordered_insert-IsSorted,
}
use tools_on_linux.Queue.State.{
  q_ok, q_err_lock, returned, ok, signal, cond_get, Queue, Compare, MutexResults,
}
use tools_on_linux.Memory.{Ptr, null}
use tools_on_linux.Memory.Chain.{contents, Cells}
use tools_on_linux.Prelude.{
  ℕ, true, some, [], ◌∷◌, ◌≡◌, ◌≢◌, ◌<◌, ne→==_false, subst, arith, refl, List,
}

code_ok :
    (q : Queue) (new : Ptr)
    → q.allowed_new_data ≡ true
    → q.used_element_cnts < q.capability
    → new ≢ null
    → push_code q new ≡ q_ok
unfolding push_code
code_ok q new allowed room some_ =
    rw
      (
        allowed,
        ne→==_false q.used_element_cnts q.capability (λ e. absurd (omega (arith, room, e))),
        ne→==_false new null some_,
      )
      refl

inserted-ordered :
    (q : Queue) (cmp : Compare) (ele : ℕ) (xs : List ℕ)
    → IsComparator cmp
    → q.sort ≡ true
    → q.cmp_ele_fun ≡ some cmp
    → inserted q ele xs ≡ ordered_insert q.ascending_order cmp ele xs
unfolding inserted_as
inserted-ordered q cmp ele xs law on has_cmp =
    rw (on, has_cmp) (insert_sorted-ordered_insert cmp law q.ascending_order ele xs)

-- A push into a sorted queue that allows new data and has room, with memory at hand, is successful: the
-- linked list then has the element where the plain ordered insertion puts it, in front of the first one
-- that may stand behind it, and is sorted; one reader is signalled. The queue is valid and was sorted, the
-- comparator keeps to its contract, and the lock is successful; a failing unlock turns only the result
-- into an error.
pub push-Sorts :
    (io : MutexResults) (q : Queue) (cs : Cells) (new : Ptr) (ele : ℕ) (cmp : Compare)
    → IsValid q cs
    → Allocates q new
    → new ≢ null
    → io.lock_result ≡ 0
    → q.allowed_new_data ≡ true
    → q.used_element_cnts < q.capability
    → q.sort ≡ true
    → q.cmp_ele_fun ≡ some cmp
    → IsComparator cmp
    → IsSorted q.ascending_order cmp (contents cs)
    → let xs = ordered_insert q.ascending_order cmp ele (contents cs) in
      (r : Queue) × (push io new ele q ≡ ok (returned (sealed io q_err_lock q_ok)) r)
      × After q cs xs (signal cond_get ∷ []) r
      × IsSorted q.ascending_order cmp xs
push-Sorts io q cs new ele cmp v fresh some_ locks allowed room on has_cmp law sorted =
    let (r, runs, after, free) = push-After io q cs new ele v fresh locks in
    let code = code_ok q new allowed room some_ in
    (
      r,
      subst (λ c. push io new ele q ≡ ok (returned (sealed io q_err_lock c)) r) code runs,
      subst (λ xs. After q cs xs (signal cond_get ∷ []) r)
          (inserted-ordered q cmp ele (contents cs) law on has_cmp)
          (subst (λ c. After q cs (push_contents c q ele (contents cs)) (push_events c) r) code
            after),
      ordered_insert-IsSorted cmp law q.ascending_order ele (contents cs) sorted,
    )
