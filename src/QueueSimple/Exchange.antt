-- ===== src/QueueSimple/Exchange.antt =====
-- A producer and a consumer, whose calls of threadLoop follow each other in any order.
use tools_on_linux.Queue.State.{Queue, returned}
use tools_on_linux.Memory.{Element, null, Ptr}
use tools_on_linux.QueueSimple.Carrying.{Carries}
use tools_on_linux.Queue.Pushing.{Allocates}
use tools_on_linux.Prelude.{
  ◌++◌, Option, some, if◌then◌else◌, ℕ, zero, suc, ◌+◌, ◌≤◌, ◌≡◌, Bool, true, false, none, List, [],
  ◌∷◌, ◌==◌, ltb, leb, not,
}
use tools_on_linux.Prelude.Outcome.{ok}
use tools_on_linux.QueueSimple.Workers.{
  Test, new_producer, Objects, produce_loop, max_cnt, consume_loop, ProduceThread, Demo,
}

-- The value at the front of the queue, if there is one.
abbrev pub value_of : Option Test → List ℕ
value_of none = []
value_of (some t) = t.value ∷ []

abbrev pub value_at : Objects → Option Element → List ℕ
value_at h none = []
value_at h (some e) = value_of (h e.content)

abbrev pub front : Demo → List ℕ
front d =
    if d.queue.used_first_element == null
    then []
    else value_at d.objects (d.queue.heap d.queue.used_first_element)

-- Thread calls threadLoop again as long as it gives true. `taken` are the values that stood at the front
-- when the consumer was called.
pub record Pair : Type 0 where
  pub demo : Demo
  pub producer : ProduceThread
  pub producing : Bool
  pub consuming : Bool
  pub taken : List ℕ

-- A call of either; malloc and calloc give free addresses.
pub data Turn : Pair → Pair → Type 0 where
  produces :
      (d e : Demo) (t u : ProduceThread) (consuming again : Bool) (taken : List ℕ)
      (int_ptr new : Ptr)
      → (int_ptr == null) ≡ false
      → d.objects int_ptr ≡ none
      → (new == null) ≡ false
      → Allocates d.queue new
      → produce_loop t int_ptr new d ≡ ok (returned (again, u)) e
      → Turn
          (record {
            demo = d;
            producer = t;
            producing = true;
            consuming = consuming;
            taken = taken;
          })
          (record {
            demo = e;
            producer = u;
            producing = again;
            consuming = consuming;
            taken = taken;
          })
  consumes :
      (d e : Demo) (t : ProduceThread) (producing again : Bool) (taken : List ℕ)
      → consume_loop d ≡ ok again e
      → Turn
          (record {
            demo = d;
            producer = t;
            producing = producing;
            consuming = true;
            taken = taken;
          })
          (record {
            demo = e;
            producer = t;
            producing = producing;
            consuming = again;
            taken = taken ++ front d;
          })

pub data Turns (initial : Pair) : Pair → Type 0 where
  begins : Turns initial initial
  continues : {s t : Pair} → Turns initial s → Turn s t → Turns initial t

-- `m` numbers from `n` on.
abbrev pub count_from : ℕ → ℕ → List ℕ
count_from n zero = []
count_from n (suc m) = n ∷ count_from (suc n) m

-- The consumer has taken 1 to `last` in order, and the queue holds the `held` numbers behind them, up to
-- the producer's counter.
pub record Shares (s : Pair) : Type 0 where
  pub last : ℕ
  pub held : ℕ
  pub taken_is : s.taken ≡ count_from 1 last
  pub carries : Carries s.demo (count_from (suc last) held)
  pub counter : s.producer.cnt ≡ last + held + 1
  pub producer_ends : s.producing ≡ not (ltb max_cnt s.producer.cnt)
  pub consumer_ends : s.consuming ≡ not (leb max_cnt last)
  pub bounded : s.producer.cnt ≤ max_cnt + 1

-- A queue as main makes it, and the two threads before their first calls.
abbrev pub first_pair : Queue → Objects → ℕ → Pair
first_pair q objects type = record {
  demo = record { queue = q; objects = objects };
  producer = new_producer type;
  producing = true;
  consuming = true;
  taken = [];
}
