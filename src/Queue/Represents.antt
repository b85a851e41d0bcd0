-- ===== src/Queue/Represents.antt =====
-- When a Queue object holds a list of elements, and how its memory accesses behave then.
use tools_on_linux.Prelude.{
  ℕ, Bool, ◌≤◌, ◌<◌, ◌^◌, ◌≡◌, ◌≢◌, refl, sym, false, true, ◌⊎◌, none, some, List, [], ◌++◌,
  append-nil, arith, ◌==◌, length,
}
use tools_on_linux.Memory.{Ptr, null, element, write}
use tools_on_linux.Memory.Chain.{Cells, Chain, first_ptr, last_ptr, has, contents}
use tools_on_linux.Queue.State.{Queue, ok, Compare, load, set_next, free, Event}

-- The pointers and the counter describe the chain of elements.
pub record Represents (q : Queue) (cs : Cells) : Type 0 where
  pub chain : Chain q.heap cs
  pub first : q.used_first_element ≡ first_ptr cs
  pub last : q.used_last_element ≡ last_ptr cs
  pub count : q.used_element_cnts ≡ length cs

-- A sorted queue has a comparator.
abbrev pub HasOrder : Queue → Type 0
HasOrder q = (q.sort ≡ false) ⊎ ((cmp : Compare) × (q.sort ≡ true) × (q.cmp_ele_fun ≡ some cmp))

-- The invariant of the class.
pub record IsValid (q : Queue) (cs : Cells) : Type 0 where
  pub holds : Represents q cs
  pub bounded : q.used_element_cnts ≤ q.capability
  pub small : q.capability < 2 ^ 32
  pub ordered : HasOrder q

-- How a call leaves the queue: it holds `xs`, `evs` were emitted, the settings are as before, the
-- memory of other owners is untouched, and every element that left the chain is freed.
pub record After (q : Queue) (cs : Cells) (xs : List ℕ) (evs : List Event) (r : Queue)
    : Type 0 where
  pub cells : Cells
  pub valid : IsValid r cells
  pub is_spec : contents cells ≡ xs
  pub events : r.events ≡ q.events ++ evs
  pub capability : r.capability ≡ q.capability
  pub allowed : r.allowed_new_data ≡ q.allowed_new_data
  pub sort : r.sort ≡ q.sort
  pub ascending : r.ascending_order ≡ q.ascending_order
  pub cmp : r.cmp_ele_fun ≡ q.cmp_ele_fun
  pub frame : (a : Ptr) → has a cells ≡ false → has a cs ≡ false → r.heap a ≡ q.heap a
  pub freed : (a : Ptr) → has a cells ≡ false → has a cs ≡ true → r.heap a ≡ none

-- The mutex is no part of that.
pub After-locked :
    (q : Queue) (cs : Cells) (xs : List ℕ) (evs : List Event) (r : Queue) (b c : Bool)
    → After (record q { locked = b }) cs xs evs r
    → After q cs xs evs (record r { locked = c })
After-locked q cs xs evs r b c a = record {
  cells = a.cells;
  valid = record {
    holds = record {
      chain = a.valid.holds.chain;
      first = a.valid.holds.first;
      last = a.valid.holds.last;
      count = a.valid.holds.count;
    };
    bounded = a.valid.bounded;
    small = a.valid.small;
    ordered = a.valid.ordered;
  };
  is_spec = a.is_spec;
  events = a.events;
  capability = a.capability;
  allowed = a.allowed;
  sort = a.sort;
  ascending = a.ascending;
  cmp = a.cmp;
  frame = a.frame;
  freed = a.freed;
}

-- A call that changes nothing but the mutex.
pub After-same : (q : Queue) (cs : Cells) → IsValid q cs → After q cs (contents cs) [] q
After-same q cs v = record {
  cells = cs;
  valid = v;
  is_spec = refl;
  events = sym (append-nil q.events);
  capability = refl;
  allowed = refl;
  sort = refl;
  ascending = refl;
  cmp = refl;
  frame = λ a _ _. refl;
  freed = λ a out inside. cc;
}

-- An allocated element at an address that is not NULL.
pub record Points (q : Queue) (p : Ptr) (d : ℕ) (n : Ptr) : Type 0 where
  pub ne_null : p ≢ null
  pub at : q.heap p ≡ some (element d n)

module _ {q : Queue} {p : Ptr} {d : ℕ} {n : Ptr} (e : Points q p d n) where
  pub not_null : (p == null) ≡ false
  not_null = ground arith

  pub load-ok : load p q ≡ ok (element d n) q
  unfolding load
  load-ok = rw (not_null, e.at)

  pub set_next-ok :
      (m : Ptr) → set_next p m q ≡ ok tt (record q { heap = write q.heap p (some (element d m)) })
  unfolding set_next
  set_next-ok m = rw load-ok

  pub free-ok : free p q ≡ ok tt (record q { heap = write q.heap p none })
  unfolding free
  free-ok = rw load-ok
