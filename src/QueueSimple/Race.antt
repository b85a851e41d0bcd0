-- ===== src/QueueSimple/Race.antt =====
-- Two consumers at the front of one queue.
use tools_on_linux.Queue.Threads.System.{working}
use tools_on_linux.Queue.State.{q_ok}
use tools_on_linux.Queue.Calls.{peek}
use tools_on_linux.Memory.Chain.{contents}
use tools_on_linux.QueueSimple.Consume.{peek_front, consume_first}
use tools_on_linux.Memory.{Ptr}
use tools_on_linux.QueueSimple.Carrying.{Values, Carries, After-InUse}
use tools_on_linux.Prelude.{
  ℕ, ◌<◌, ◌≡◌, List, [], ◌∷◌, arith, refl, ◌∙◌, inl, inr, not, leb, true, false, ap, none,
}
use tools_on_linux.Prelude.Outcome.{ok, fault}
use tools_on_linux.Prelude.Int.{pos}
use tools_on_linux.QueueSimple.Workers.{
  on_queue, max_cnt, load_test, consume_seen, consume_loop, Demo,
}

unstored : (p : Ptr) (d : Demo) → d.objects p ≡ none → consume_seen (q_ok, p) d ≡ fault
unfolding consume_seen load_test
unstored p d gone = rw (gone, load_test) refl

-- Between the peek of one consumer and its look at the struct, another consumer's call of threadLoop
-- takes the element and frees the struct, which the first one then reads: a fault. The queue is in use
-- and holds at least one value that is not the last one.
pub consume-Race :
    (d : Demo) (v : ℕ) (vs : List ℕ)
    → Carries d (v ∷ vs)
    → v < max_cnt
    → (p : Ptr) × (e : Demo) × (f : Demo) × (on_queue (peek working (pos 0)) d ≡ ok (q_ok, p) e)
      × (consume_loop e ≡ ok true f)
      × Carries f vs
      × (consume_seen (q_ok, p) f ≡ fault)
consume-Race d v vs c small = raced (contents c.cells) refl c.values
  where
    raced :
        (xs : List Ptr)
        → contents c.cells ≡ xs
        → Values d.objects xs (v ∷ vs)
        → (p : Ptr) × (e : Demo) × (f : Demo) × (on_queue (peek working (pos 0)) d ≡ ok (q_ok, p) e)
          × (consume_loop e ≡ ok true f)
          × Carries f vs
          × (consume_seen (q_ok, p) f ≡ fault)
    raced [] is_ values = elim values [ ]
    raced (p ∷ ps) is_ values =
        let (r, peeked, after) = peek_front d.queue c.cells (p ∷ ps) c.valid is_ in
        let e : Demo = record d { queue = r } in
        let takes =
          consume_first e after.cells p ps v vs after.valid
            (After-InUse d.queue c.cells r c.in_use after) after.is_spec values in
        let more : leb max_cnt v ≡ false = ground (arith, small) in
        let gone : takes.left.objects p ≡ none = elim takes.gone [
          | inl last ↦ absurd (ground (arith, last, more))
          | inr gone ↦ gone
        ] in
        (
          p,
          e,
          takes.left,
          rw peeked refl,
          takes.runs ∙ ap (λ b. ok (not b) takes.left) more,
          takes.carries,
          unstored p takes.left gone,
        )
