-- ===== src/Queue/Insert/Linking.antt =====
-- What the linking branches of _pushElement have in common.
use tools_on_linux.Prelude.{◌||◌, ℕ, ◌≡◌, ◌∙◌, false, List, ◌==◌}
use tools_on_linux.Memory.{Ptr, Heap}
use tools_on_linux.Memory.Chain.{Cells, Chain, first_ptr, last_ptr, contents, has}
use tools_on_linux.Queue.State.{Queue, ok, M}

-- A run that links the element at `new` into the chain, with the contents that result: the object
-- changes in its two pointers and its chain, and the memory outside the chain stays.
pub record Links (q : Queue) (cs : Cells) (new : Ptr) (run : M (Unit {0})) (contents_after : List ℕ)
    : Type 0 where
  pub cells : Cells
  pub heap : Heap
  pub runs :
      run q
      ≡ ok tt (record q {
        used_first_element = first_ptr cells;
        used_last_element = last_ptr cells;
        heap = heap;
      })
  pub chain : Chain heap cells
  pub is_spec : contents cells ≡ contents_after
  pub frame : (a : Ptr) → has a cells ≡ false → heap a ≡ q.heap a
  pub grows : (a : Ptr) → has a cells ≡ ((a == new) || has a cs)

pub Links-of_eq :
    {q : Queue} {cs : Cells} {new : Ptr} {run run' : M (Unit {0})} {xs ys : List ℕ}
    → run' q ≡ run q
    → xs ≡ ys
    → Links q cs new run xs
    → Links q cs new run' ys
Links-of_eq e f l = record {
  cells = l.cells;
  heap = l.heap;
  runs = e ∙ l.runs;
  chain = l.chain;
  is_spec = l.is_spec ∙ f;
  frame = l.frame;
  grows = l.grows;
}
