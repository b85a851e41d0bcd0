-- ===== src/QueueSimple/Workers.antt =====
-- threadLoop of ProduceThread and of ConsumeThread, without what they print. The mutex of the queue
-- works.
use tools_on_linux.Queue.Threads.System.{working}
use tools_on_linux.Queue.Calls.{push_and_wait, pop, peek}
use tools_on_linux.Queue.State.{M, waits, returned, is_ok, Run, Reply, Queue}
use tools_on_linux.Memory.{null, Ptr}
use tools_on_linux.Prelude.{
  List, [], ◌∷◌, ◌||◌, ℕ, ◌+◌, Bool, true, false, Option, none, some, ◌==◌, ltb, leb, if◌then◌else◌,
  not,
}
use tools_on_linux.Prelude.Int.{ℤ, pos}
use tools_on_linux.Prelude.Outcome.{
  Outcome, Program, ok, fault, out_of_fuel, pure, modify, ◌>>=◌, ◌>>◌,
}

abbrev pub max_cnt : ℕ
max_cnt = 1000000

-- The struct that the threads hand over.
pub record Test : Type 0 where
  pub type : ℕ
  pub value : ℕ

abbrev pub Objects : Type 0
Objects = Ptr → Option Test

-- The queue, and the structs that malloc gave and free has not taken.
pub record Demo : Type 0 where
  pub queue : Queue
  pub objects : Objects

pub record ProduceThread : Type 0 where
  pub type : ℕ
  pub cnt : ℕ
  pub all_cnt : ℕ

-- ProduceThread::ProduceThread
abbrev pub new_producer : ℕ → ProduceThread
new_producer type = record { type = type; cnt = 1; all_cnt = 0 }

abbrev pub on_queue_result : {A : Type 0} → Demo → Run A → Outcome Demo A
on_queue_result d (ok a q) = ok a (record d { queue = q })
on_queue_result d fault = fault
on_queue_result d out_of_fuel = out_of_fuel

-- A method of mQueue.
abbrev pub on_queue : {A : Type 0} → M A → Program Demo A
on_queue m d = on_queue_result d (m d.queue)

abbrev pub put_object : Objects → Ptr → Option Test → Objects
put_object h p c a = if a == p then c else h a

abbrev pub has_ptr : Ptr → List Ptr → Bool
has_ptr p [] = false
has_ptr p (x ∷ xs) = (p == x) || has_ptr p xs

-- `test->value`, a fault where nothing is allocated.
unfoldable pub load_test : Ptr → Program Demo Test
load_test p d = elim (d.objects p) [ none ↦ fault | some t ↦ ok t d ]

-- From the return of pushAndWait on: the counters, and whether to go on.
unfoldable pub produce_rest : ProduceThread → Reply ℤ → Reply (Bool × ProduceThread)
produce_rest t (waits c) = waits c
produce_rest t (returned ret) =
    let next = record t {
      all_cnt = if is_ok ret then t.all_cnt + 1 else t.all_cnt;
      cnt = t.cnt + 1;
    } in
    returned (not (ltb max_cnt next.cnt), next)

-- `int_ptr` is what malloc gives, `new` what calloc gives in the push.
unfoldable pub produce_loop :
    ProduceThread → (int_ptr new : Ptr) → Program Demo (Reply (Bool × ProduceThread))
produce_loop t int_ptr new = if int_ptr == null then pure (returned (false, t)) else do
  modify (λ d. record d {
    objects = put_object d.objects int_ptr (some (record { type = t.type; value = t.cnt }));
  })
  ret ← on_queue (push_and_wait working new int_ptr)
  pure (produce_rest t ret)

-- `free(test)`, a fault where nothing is allocated.
unfoldable pub free_test : Ptr → Program Demo (Unit {0})
free_test p d = elim (d.objects p) [
  | none ↦ fault
  | some t ↦ ok tt (record d { objects = put_object d.objects p none })
]

-- From the pop on.
unfoldable pub consume_popped : Reply (ℤ × ℕ) → Program Demo Bool
consume_popped (waits c) = pure true
consume_popped (returned (ret, test)) = if not (is_ok ret) then pure false else do
  t ← load_test test
  if leb max_cnt t.value then pure false else (do free_test test; pure true)

-- From the return of peek on. `null` is what the pointer holds before.
unfoldable pub consume_seen : ℤ × ℕ → Program Demo Bool
consume_seen peeked =
    if not (is_ok (peeked.0))
    then pure true
    else do _ ← load_test peeked.1; popped ← on_queue (pop working null); consume_popped popped

unfoldable pub consume_loop : Program Demo Bool
consume_loop = do peeked ← on_queue (peek working (pos 0)); consume_seen peeked
