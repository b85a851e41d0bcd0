-- ===== src/QueueSimple/Tests.antt =====
-- The sorted queue of QueueSimple.cpp on concrete values.
use tools_on_linux.QueueSimple.Race.{consume-Race}
use tools_on_linux.Queue.Threads.System.{working}
use tools_on_linux.Queue.Push.{push_insert, push_element, push_allocated, link_last}
use tools_on_linux.Memory.{Ptr, write, null, element}
use tools_on_linux.QueueSimple.HandOver.{Turns-hand_over}
use tools_on_linux.QueueSimple.Exchange.{
  produces, first_pair, continues, begins, Turns, Shares, Pair,
}
use tools_on_linux.Queue.Represents.{IsValid}
use tools_on_linux.QueueSimple.Carrying.{Carries, InUse}
use tools_on_linux.QueueSimple.Workers.{
  consume_seen, consume_loop, on_queue, put_object, produce_rest, produce_loop, new_producer,
  Objects, Demo,
}
use tools_on_linux.Queue.Calls.{peek, push_and_wait, leave_reply, leave, enter, new_queue}
use tools_on_linux.QueueSimple.{cmp_int_ptr}
use tools_on_linux.Queue.State.{fault, q_ok, ok, unlock, signal, lock, cond_get, Queue}
use tools_on_linux.Prelude.{Bool, inl, arith, ◌≡◌, refl, true, false, none, some, [], ◌∷◌}
use tools_on_linux.Prelude.Int.{pos}

-- A queue as sorted_mode makes it.
abbrev sorted_queue : Queue
unfolding new_queue
sorted_queue = new_queue (λ _. none) 0 true (some (cmp_int_ptr pos))

-- A queue as main makes it.
abbrev main_queue : Queue
main_queue = record {
  used_first_element = null;
  used_last_element = null;
  used_element_cnts = 0;
  capability = 4294967295;
  allowed_new_data = true;
  sort = false;
  ascending_order = true;
  cmp_ele_fun = none;
  locked = false;
  heap = λ _. none;
  events = [];
}

main_queue-IsValid : IsValid main_queue []
main_queue-IsValid = record {
  holds = record { chain = tt; first = refl; last = refl; count = refl };
  bounded = omega arith;
  small = omega arith;
  ordered = inl refl;
}

main_queue-InUse : InUse main_queue
main_queue-InUse = record { allowed = refl; plain = refl; room = omega arith }

abbrev no_objects : Objects
no_objects p = none

abbrev one_pushed : Demo
one_pushed = record {
  queue = record main_queue {
    used_first_element = 8;
    used_last_element = 8;
    used_element_cnts = 1;
    heap = write (λ _. none) 8 (some (element 3 null));
    events = signal cond_get ∷ [];
  };
  objects = put_object no_objects 3 (some (record { type = 4; value = 1 }));
}

abbrev after_one : Pair
after_one = record {
  demo = one_pushed;
  producer = record { type = 4; cnt = 2; all_cnt = 1 };
  producing = true;
  consuming = true;
  taken = [];
}

one_call : Turns (first_pair main_queue no_objects 4) after_one
unfolding produce_loop produce_rest push_and_wait enter lock leave leave_reply unlock push_element
    push_insert push_allocated link_last
one_call = continues begins (
    produces (record { queue = main_queue; objects = no_objects }) one_pushed (new_producer 4)
      (record { type = 4; cnt = 2; all_cnt = 1 }) true true [] 3 8 refl refl refl (λ ne. refl) refl)

Turns-hand_over_example :
    Shares after_one × (again : Bool) × (e : Demo) × (consume_loop one_pushed ≡ ok again e)
Turns-hand_over_example =
    Turns-hand_over main_queue no_objects 4 after_one main_queue-IsValid main_queue-InUse one_call

one_pushed-Carries : Carries one_pushed (1 ∷ [])
unfolding write
one_pushed-Carries = record {
  cells = (8, 3) ∷ [];
  valid = record {
    holds = record {
      chain = (omega arith, refl, refl, tt);
      first = refl;
      last = refl;
      count = refl;
    };
    bounded = omega arith;
    small = omega arith;
    ordered = inl refl;
  };
  in_use = record { allowed = refl; plain = refl; room = omega arith };
  values = ((record { type = 4; value = 1 }, refl, refl), refl, tt);
}

consume-Race_example :
    (p : Ptr) × (e : Demo) × (f : Demo) × (on_queue (peek working (pos 0)) one_pushed
      ≡ ok (q_ok, p) e)
    × (consume_loop e ≡ ok true f)
    × Carries f []
    × (consume_seen (q_ok, p) f ≡ fault)
consume-Race_example = consume-Race one_pushed 1 [] one_pushed-Carries (omega arith)
