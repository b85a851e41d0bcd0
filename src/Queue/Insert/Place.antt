-- ===== src/Queue/Insert/Place.antt =====
-- The search loop of _pushElement.
use tools_on_linux.Prelude.{
  ℕ, zero, suc, ◌<◌, ◌≡◌, refl, ap, inl, inr, Bool, [], ◌∷◌, ◌++◌, arith, length, Bool-cases,
}
use tools_on_linux.Memory.{Ptr}
use tools_on_linux.Memory.Chain.{Cells, Chain, first_ptr, contents}
use tools_on_linux.Queue.State.{Queue, ok, Compare}
use tools_on_linux.Queue.Push.{goes_between, find_place}
use tools_on_linux.Queue.Represents.{Points, load-ok, not_null}
use tools_on_linux.Queue.Order.{insert_behind}

-- Where the search ends: behind `(s, d)` and before `post`, as `insert_behind` inserts.
pub record Place (ascending : Bool) (cmp : Compare) (ele : ℕ) (first : Ptr × ℕ) (rest : Cells)
    : Type 0 where
  pub pre : Cells
  pub s : Ptr
  pub d : ℕ
  pub post : Cells
  pub cells : first ∷ rest ≡ pre ++ (s, d) ∷ post
  pub spec :
      insert_behind ascending cmp ele first.1 (contents rest)
      ≡ contents pre ++ d ∷ ele ∷ contents post

pub find_place-Place :
    (q : Queue) (ascending : Bool) (cmp : Compare) (ele k : ℕ) (s : Ptr) (d : ℕ) (rest : Cells)
    → Chain q.heap ((s, d) ∷ rest)
    → length rest < k
    → (f : Place ascending cmp ele (s, d) rest) × (find_place ascending cmp ele k s
          (first_ptr rest)
          q
        ≡ ok (f.s, first_ptr f.post) q)
unfolding find_place insert_behind
find_place-Place q ascending cmp ele zero s d rest ch fuel = absurd (omega arith)
find_place-Place q ascending cmp ele (suc k) s d [] ch fuel =
    (record { pre = []; s = s; d = d; post = []; cells = refl; spec = refl }, ground arith)
find_place-Place q ascending cmp ele (suc k) s d ((t, c) ∷ rest) (ok_s, at_s, out, ch) fuel =
    elim (Bool-cases (goes_between ascending cmp d ele c)) [
      | inl here ↦ (
        record { pre = []; s = s; d = d; post = (t, c) ∷ rest; cells = refl; spec = rw here },
        rw (not_null s_at, not_null t_at, load-ok s_at, load-ok t_at, here),
      )
      | inr on ↦
          let (f, e) = find_place-Place q ascending cmp ele k t c rest ch (omega arith) in
          (
            record {
              pre = (s, d) ∷ f.pre;
              s = f.s;
              d = f.d;
              post = f.post;
              cells = ap (◌∷◌ (s, d)) f.cells;
              spec = rw on (ap (◌∷◌ d) f.spec);
            },
            rw (not_null s_at, not_null t_at, load-ok s_at, load-ok t_at, on) e,
          )
    ]
  where
    s_at : Points q s d t
    s_at = record { ne_null = ok_s; at = at_s }

    t_at : Points q t c (first_ptr rest)
    t_at = record { ne_null = ch.0; at = ch.1 }
