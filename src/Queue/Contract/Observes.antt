-- ===== src/Queue/Contract/Observes.antt =====
-- Queue::getCnt, Queue::isEmpty and Queue::isAllowedNewData, and the constructors.
use tools_on_linux.Queue.Calls.{new_queue, leave, is_empty, get_cnt, enter}
use tools_on_linux.Queue.Represents.{IsValid}
use tools_on_linux.Memory.{Ptr, null, Heap}
use tools_on_linux.Memory.Chain.{
  last_from-ne_null, last_from, last_ptr, first_ptr, Chain, contents, Cells,
}
use tools_on_linux.Prelude.Int.{signed32, signed32-pos}
use tools_on_linux.Prelude.{
  sym, length-map, ne→==_false, length-map, ap, ◌||◌, ◌==◌, ◌-◌, length, if◌then◌else◌, ◌≡◌, ◌^◌,
  Option, ◌<◌, Bool, ℕ, suc, none, some, [], ◌∷◌, refl, true, false, inl, inr, arith, ◌∙◌, ltb,
}
use tools_on_linux.Prelude.Int.{ℤ, pos}
use tools_on_linux.Queue.State.{ok, unlock, lock, Queue, MutexResults, Compare}

abbrev pub is_some : {A : Type 0} → Option A → Bool
is_some none = false
is_some (some a) = true

pub new_queue-IsValid :
    (h : Heap) (max_element : ℕ) (ascending : Bool) (cmp : Option Compare)
    → max_element < 2 ^ 32
    → let q = new_queue h max_element ascending cmp in
      IsValid q []
      × (q.capability ≡ (if ltb 0 max_element then max_element else 2 ^ 31 - 2))
      × (q.allowed_new_data ≡ true)
      × (q.cmp_ele_fun ≡ cmp)
      × (q.sort ≡ is_some cmp)
      × (q.ascending_order ≡ (if is_some cmp then ascending else true))
      × (q.heap ≡ h)
unfolding new_queue
new_queue-IsValid h max_element ascending none small = (
  record {
    holds = record { chain = tt; first = refl; last = refl; count = refl };
    bounded = omega arith;
    small = ground arith;
    ordered = inl refl;
  },
  refl,
  refl,
  refl,
  refl,
  refl,
  refl,
)
new_queue-IsValid h max_element ascending (some cmp) small = (
  record {
    holds = record { chain = tt; first = refl; last = refl; count = refl };
    bounded = omega arith;
    small = ground arith;
    ordered = inr (cmp, refl, refl);
  },
  refl,
  refl,
  refl,
  refl,
  refl,
  refl,
)

pub length-contents : (cs : Cells) → length (contents cs) ≡ length cs
length-contents cs = length-map (λ (c : Ptr × ℕ). c.1) cs

pointers_empty :
    (q : Queue) (cs : Cells)
    → q.used_first_element ≡ first_ptr cs
    → q.used_last_element ≡ last_ptr cs
    → Chain q.heap cs
    → (q.used_first_element == null || q.used_last_element == null) ≡ (length (contents cs) == 0)
pointers_empty q [] first last ch = ground arith
pointers_empty q ((p, d) ∷ cs) first last ch =
    rw
      (
        first,
        last,
        ne→==_false p null ch.0,
        ne→==_false (last_from p cs) null (last_from-ne_null q.heap p cs ch.0 ch.3),
      )
      (sym (ne→==_false (suc (length (contents cs))) 0 (omega arith)))

-- Both methods on any valid queue.
pub get_cnt-runs :
    (io : MutexResults) (q : Queue) (cs : Cells)
    → IsValid q cs
    → io.lock_result ≡ 0
    → io.unlock_result ≡ 0
    → (get_cnt io q ≡ ok (signed32 (length (contents cs))) (record q { locked = false }))
      × (is_empty io q ≡ ok (length (contents cs) == 0) (record q { locked = false }))
unfolding get_cnt is_empty enter leave lock unlock
get_cnt-runs io q cs v locks unlocks = (
  rw (locks, unlocks)
      (ap (λ (n : ℕ). ok (signed32 n) (record q { locked = false }))
        (v.holds.count ∙ sym (length-contents cs))),
  rw (locks, unlocks)
      (ap (λ (b : Bool). ok b (record q { locked = false }))
        (pointers_empty q cs v.holds.first v.holds.last v.holds.chain)),
)

-- getCnt gives the number of elements, where a queue of that capability is countable in an int32_t;
-- isEmpty says whether there are none. Both leave a valid queue as it was. The lock and the unlock succeed.
pub get_cnt-After :
    (io : MutexResults) (q : Queue) (cs : Cells)
    → IsValid q cs
    → q.capability < 2 ^ 31
    → io.lock_result ≡ 0
    → io.unlock_result ≡ 0
    → (get_cnt io q ≡ ok (pos (length (contents cs))) (record q { locked = false }))
      × (is_empty io q ≡ ok (length (contents cs) == 0) (record q { locked = false }))
get_cnt-After io q cs v countable locks unlocks =
    let (counted, emptied) = get_cnt-runs io q cs v locks unlocks in
    (
      counted
          ∙ ap (λ (c : ℤ). ok c (record q { locked = false }))
              (signed32-pos (length (contents cs))
                (omega (arith, v.bounded, v.holds.count, length-contents cs, countable))),
      emptied,
    )
