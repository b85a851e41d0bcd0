-- ===== src/QueueSimple/HandOver.antt =====
-- What a producer and a consumer hand over.
use tools_on_linux.Memory.{null}
use tools_on_linux.Memory.Chain.{contents, Cells}
use tools_on_linux.QueueSimple.Exchange.{
  value_of, value_at, front, produces, first_pair, count_from, continues, consumes, begins, Turns,
  Turn, Shares, Pair,
}
use tools_on_linux.QueueSimple.Consume.{consume_loop-empty, consume_loop-Carries}
use tools_on_linux.Queue.Represents.{IsValid}
use tools_on_linux.QueueSimple.Produce.{produce_loop-Carries}
use tools_on_linux.Queue.State.{waits, Reply, Queue, returned}
use tools_on_linux.QueueSimple.Carrying.{Values, InUse, Carries}
use tools_on_linux.Prelude.{
  List, append-nil, if_true, if_false, ◌==◌, ℕ, zero, suc, ◌+◌, ◌≤◌, ◌≡◌, Bool, true, false, [],
  ◌∷◌, ◌++◌, ltb, leb, not, length, arith, refl, sym, ap, ◌∙◌, subst,
}
use tools_on_linux.Prelude.Outcome.{out_of_fuel, fault, Outcome, ok}
use tools_on_linux.QueueSimple.Workers.{Objects, max_cnt, consume_loop, ProduceThread, Demo}

count_from-behind : (n m : ℕ) → count_from n m ++ (n + m) ∷ [] ≡ count_from n (suc m)
count_from-behind n zero = ap (λ k. k ∷ []) (omega arith)
count_from-behind n (suc m) =
    ap (◌∷◌ n)
      (ap (λ k. count_from (suc n) m ++ k ∷ []) (omega arith) ∙ count_from-behind (suc n) m)

length-count_from : (n m : ℕ) → length (count_from n m) ≡ m
length-count_from n zero = refl
length-count_from n (suc m) = omega (arith, length-count_from (suc n) m)

-- The pair after a call of the producer and of the consumer.
abbrev after_produce : Pair → Outcome Demo (Reply (Bool × ProduceThread)) → Pair
after_produce s (ok (returned (again, u)) e) = record s {
  demo = e;
  producer = u;
  producing = again;
}
after_produce s (ok (waits c) e) = s
after_produce s fault = s
after_produce s out_of_fuel = s

abbrev after_consume : Pair → Outcome Demo Bool → Pair
after_consume s (ok again e) = record s {
  demo = e;
  consuming = again;
  taken = s.taken ++ front s.demo;
}
after_consume s fault = s
after_consume s out_of_fuel = s

abbrev first_of : List ℕ → List ℕ
first_of [] = []
first_of (v ∷ vs) = v ∷ []

front-cells :
    (d : Demo) (cs : Cells) (vs : List ℕ)
    → IsValid d.queue cs
    → Values d.objects (contents cs) vs
    → front d ≡ first_of vs
front-cells d [] [] v values =
    if_true (d.queue.used_first_element == null) _ _ (ground (arith, v.holds.first))
front-cells d [] (w ∷ vs) v values = elim values [ ]
front-cells d ((p, x) ∷ cs) [] v values = elim values [ ]
front-cells d ((p, x) ∷ cs) (w ∷ vs) v ((t, stored, is_w), once, rest) =
    let (some_, at_p, out, chain) = v.holds.chain in
    if_false (d.queue.used_first_element == null) _ _ (ground (arith, v.holds.first, some_))
    ∙ ap (λ a. value_at d.objects (d.queue.heap a)) v.holds.first
    ∙ ap (value_at d.objects) at_p
    ∙ ap value_of stored
    ∙ ap (λ k. k ∷ []) is_w

front-Carries : (d : Demo) (vs : List ℕ) → Carries d vs → front d ≡ first_of vs
front-Carries d vs c = front-cells d c.cells vs c.valid c.values

-- The consumer takes the first of the numbers, or finds none.
consumes-Shares :
    (s : Pair) (n m : ℕ)
    → s.taken ≡ count_from 1 n
    → Carries s.demo (count_from (suc n) m)
    → s.producer.cnt ≡ n + m + 1
    → s.producing ≡ not (ltb max_cnt s.producer.cnt)
    → true ≡ not (leb max_cnt n)
    → s.producer.cnt ≤ max_cnt + 1
    → Shares (after_consume s (consume_loop s.demo))
consumes-Shares s n zero taken_is carries counter producer_ends consumer_ends bounded =
    let (e, runs, carries') = consume_loop-empty s.demo carries in
    subst Shares (ap (after_consume s) (sym runs)) (record {
      last = n;
      held = 0;
      taken_is =
          ap (λ xs. s.taken ++ xs) (front-Carries s.demo [] carries)
          ∙ append-nil s.taken
          ∙ taken_is;
      carries = carries';
      counter = counter;
      producer_ends = producer_ends;
      consumer_ends = consumer_ends;
      bounded = bounded;
    })
consumes-Shares s n (suc m) taken_is carries counter producer_ends consumer_ends bounded =
    let (e, runs, carries') =
      consume_loop-Carries s.demo (suc n) (count_from (suc (suc n)) m) carries in
    subst Shares (ap (after_consume s) (sym runs)) (record {
      last = suc n;
      held = m;
      taken_is =
          ap (λ xs. s.taken ++ xs)
            (front-Carries s.demo (suc n ∷ count_from (suc (suc n)) m) carries)
          ∙ ap (λ xs. xs ++ suc n ∷ []) taken_is
          ∙ ap (λ k. count_from 1 n ++ k ∷ []) (omega arith)
          ∙ count_from-behind 1 n;
      carries = carries';
      counter = omega (arith, counter);
      producer_ends = producer_ends;
      consumer_ends = refl;
      bounded = bounded;
    })

Turn-Shares : {s t : Pair} → Turn s t → Shares s → Shares t
Turn-Shares (produces d e t u consuming again taken int_ptr new some_ fresh some' fresh' runs) h =
    let few : t.cnt ≤ max_cnt = ground (arith, h.producer_ends) in
    let (e', runs', carries) =
      produce_loop-Carries t int_ptr new d (count_from (suc h.last) h.held) h.carries
        (omega (arith, length-count_from (suc h.last) h.held, few, h.counter)) some_ fresh some'
        fresh' in
    let s : Pair = record {
      demo = d;
      producer = t;
      producing = true;
      consuming = consuming;
      taken = taken;
    } in
    subst Shares (ap (after_produce s) (sym runs' ∙ runs)) (record {
      last = h.last;
      taken_is = h.taken_is;
      held = suc h.held;
      carries =
          subst (Carries e')
            (ap (λ k. count_from (suc h.last) h.held ++ k ∷ []) (omega (arith, h.counter))
              ∙ count_from-behind (suc h.last) h.held)
            carries;
      counter = omega (arith, h.counter);
      producer_ends = refl;
      consumer_ends = h.consumer_ends;
      bounded = omega (arith, few);
    })
Turn-Shares (consumes d e t producing again taken runs) h =
    let s : Pair = record {
      demo = d;
      producer = t;
      producing = producing;
      consuming = true;
      taken = taken;
    } in
    subst Shares (ap (after_consume s) runs) (
      consumes-Shares s h.last h.held h.taken_is h.carries h.counter h.producer_ends h.consumer_ends
        h.bounded)

Turns-Shares : {s t : Pair} → Turns s t → Shares s → Shares t
Turns-Shares begins h = h
Turns-Shares (continues earlier turn) h = Turn-Shares turn (Turns-Shares earlier h)

consumer-goes_on :
    (d : Demo) (vs : List ℕ)
    → Carries d vs
    → (again : Bool) × (e : Demo) × (consume_loop d ≡ ok again e)
consumer-goes_on d [] c = let (e, runs, carries) = consume_loop-empty d c in (true, e, runs)
consumer-goes_on d (v ∷ vs) c =
    let (e, runs, carries) = consume_loop-Carries d v vs c in (not (leb max_cnt v), e, runs)

-- The producer and the consumer hand over 1 to MAX_CNT: in whatever order their calls of threadLoop
-- follow each other, from an empty queue in use with room for MAX_CNT elements, and with memory for
-- every push, the values that the consumer has taken are 1, 2, 3 and so on, the queue holds the numbers
-- behind them up to the one before the producer's counter, the producer ends when it has pushed
-- MAX_CNT and the consumer when it has taken it, and the consumer's next call does not fault.
pub Turns-hand_over :
    (q : Queue) (objects : Objects) (type : ℕ) (s : Pair)
    → IsValid q []
    → InUse q
    → Turns (first_pair q objects type) s
    → Shares s × (again : Bool) × (e : Demo) × (consume_loop s.demo ≡ ok again e)
Turns-hand_over q objects type s v used turns =
    let shares = Turns-Shares turns (record {
      last = 0;
      held = 0;
      taken_is = refl;
      carries = record { cells = []; valid = v; in_use = used; values = tt };
      counter = refl;
      producer_ends = refl;
      consumer_ends = refl;
      bounded = omega arith;
    }) in
    let next = consumer-goes_on s.demo _ shares.carries in (shares, next.0, next.1, next.2)

-- So the consumer of such a pair never ends before the producer, and leaves no element behind.
pub Turns-consumer_last :
    (q : Queue) (objects : Objects) (type : ℕ) (s : Pair)
    → IsValid q []
    → InUse q
    → Turns (first_pair q objects type) s
    → s.consuming ≡ false
    → (s.producing ≡ false) × (s.producer.cnt ≡ max_cnt + 1) × Carries s.demo []
Turns-consumer_last q objects type s v used turns over =
    let h = (Turns-hand_over q objects type s v used turns).0 in
    let none_left : h.held ≡ 0 = ground (arith, h.consumer_ends, over, h.counter, h.bounded) in
    let all : s.producer.cnt ≡ max_cnt + 1 =
      ground (arith, h.consumer_ends, over, h.counter, h.bounded) in
    (
      ground (arith, h.producer_ends, all),
      all,
      subst (λ m. Carries s.demo (count_from (suc h.last) m)) none_left h.carries,
    )
