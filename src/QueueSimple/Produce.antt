-- ===== src/QueueSimple/Produce.antt =====
-- One call of threadLoop of the producer, on a queue that carries values.
use tools_on_linux.Queue.State.{returned}
use tools_on_linux.Memory.Chain.{contents}
use tools_on_linux.Memory.{null, Ptr}
use tools_on_linux.QueueSimple.Carrying.{
  After-Carries, push_and_wait-stores, Values-put, Values-length, Values-fresh, Values-behind,
  Carries,
}
use tools_on_linux.Queue.Pushing.{Allocates}
use tools_on_linux.Prelude.{
  ℕ, ◌+◌, ◌≤◌, ◌≡◌, false, none, some, List, [], ◌∷◌, ◌++◌, ◌==◌, ltb, not, length, arith, refl,
  if_true,
}
use tools_on_linux.Prelude.Outcome.{ok}
use tools_on_linux.QueueSimple.Workers.{
  put_object, produce_rest, produce_loop, max_cnt, ProduceThread, Demo,
}

-- The producer when it is back.
abbrev pub produced : ProduceThread → ProduceThread
produced t = record { type = t.type; cnt = t.cnt + 1; all_cnt = t.all_cnt + 1 }

-- It puts its counter behind the values, with memory for the struct and for the element.
pub produce_loop-Carries :
    (t : ProduceThread) (int_ptr new : Ptr) (d : Demo) (vs : List ℕ)
    → Carries d vs
    → length vs ≤ max_cnt
    → (int_ptr == null) ≡ false
    → d.objects int_ptr ≡ none
    → (new == null) ≡ false
    → Allocates d.queue new
    → (e : Demo) × (produce_loop t int_ptr new d
        ≡ ok (returned (not (ltb max_cnt (t.cnt + 1)), produced t)) e)
      × Carries e (vs ++ t.cnt ∷ [])
unfolding produce_loop produce_rest
produce_loop-Carries t int_ptr new d vs c few some_ fresh some' fresh' =
    let ps = contents c.cells in
    let out = Values-fresh d.objects int_ptr ps vs fresh c.values in
    let filled = put_object d.objects int_ptr (some (record { type = t.type; value = t.cnt })) in
    let (r, runs, after) =
      push_and_wait-stores d.queue c.cells new int_ptr c.valid c.in_use.allowed c.in_use.plain
        (omega (arith, c.in_use.room, Values-length d.objects ps vs c.values)) fresh' some' in
    (
      record { queue = r; objects = filled },
      rw (some_, runs) refl,
      After-Carries d.queue c.cells r filled (vs ++ t.cnt ∷ []) c.in_use after (
          Values-behind filled int_ptr (record { type = t.type; value = t.cnt }) ps vs out
            (if_true (int_ptr == int_ptr) _ (d.objects int_ptr) (ground arith))
            (Values-put d.objects int_ptr _ ps vs out c.values)),
    )
