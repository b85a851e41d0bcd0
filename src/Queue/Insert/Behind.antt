-- ===== src/Queue/Insert/Behind.antt =====
-- "actually insert": the element goes between two others, or behind the last.
use tools_on_linux.Prelude.{
  ℕ, ◌≡◌, ◌∙◌, false, some, [], ◌∷◌, ◌++◌, arith, ◌==◌, if◌then◌else◌, ne→==_false, map-append,
}
use tools_on_linux.Memory.{Ptr, null, element, write}
use tools_on_linux.Memory.Chain.{
  Cells, Chain, first_ptr, last_ptr, contents, has, splice, Chain-splice, Chain-drop,
  first_ptr-splice, last_from-append, has-splice, splice-other, has-append,
}
use tools_on_linux.Queue.State.{modify, pure, Queue, ok}
use tools_on_linux.Queue.Push.{link_behind}
use tools_on_linux.Queue.Represents.{Points, set_next-ok, Represents}
use tools_on_linux.Queue.Insert.Linking.{Links}

module _ (q : Queue) (new : Ptr) (ele : ℕ) (fresh : Points q new ele null) where
  -- The two writes of `link_behind`.
  behind_writes :
      (pre : Cells) (s : Ptr) (d : ℕ) (post : Cells)
      → Represents q (pre ++ (s, d) ∷ post)
      → has new (pre ++ (s, d) ∷ post) ≡ false
      → link_behind new s (first_ptr post) q
        ≡ (if first_ptr post == null
              then modify (λ q. record q { used_last_element = new })
              else pure tt)
            (record q { heap = splice q.heap s d new ele (first_ptr post) })
  unfolding link_behind write
  behind_writes pre s d post rep out =
      rw (set_next-ok s_at new, set_next-ok new_at (first_ptr post))
    where
      at_s : Chain q.heap ((s, d) ∷ post)
      at_s = Chain-drop q.heap pre ((s, d) ∷ post) rep.chain

      s_at : Points q s d (first_ptr post)
      s_at = record { ne_null = at_s.0; at = at_s.1 }

      new_at : Points (record q { heap = write q.heap s (some (element d new)) }) new ele null
      new_at = record {
        ne_null = fresh.ne_null;
        at = ground (arith, fresh.at, has-append new pre ((s, d) ∷ post));
      }

  behind_runs :
      (pre : Cells) (s : Ptr) (d : ℕ) (post : Cells)
      → Represents q (pre ++ (s, d) ∷ post)
      → has new (pre ++ (s, d) ∷ post) ≡ false
      → link_behind new s (first_ptr post) q
        ≡ ok tt (record q {
          used_first_element = first_ptr (pre ++ (s, d) ∷ (new, ele) ∷ post);
          used_last_element = last_ptr (pre ++ (s, d) ∷ (new, ele) ∷ post);
          heap = splice q.heap s d new ele (first_ptr post);
        })
  behind_runs pre s d [] rep out =
      behind_writes pre s d [] rep out
      ∙ rw (
        first_ptr-splice pre s d [] new ele,
        last_from-append null pre s d ((new, ele) ∷ []),
        ← rep.first,
      )
  behind_runs pre s d ((t, c) ∷ post) rep out =
      behind_writes pre s d ((t, c) ∷ post) rep out
      ∙ rw (
        ne→==_false t null (Chain-drop q.heap pre ((s, d) ∷ (t, c) ∷ post) rep.chain).3.0,
        first_ptr-splice pre s d ((t, c) ∷ post) new ele,
        last_from-append null pre s d ((new, ele) ∷ (t, c) ∷ post),
        ← rep.first,
        ← (rep.last ∙ last_from-append null pre s d ((t, c) ∷ post)),
      )

  pub link_behind-Links :
      (pre : Cells) (s : Ptr) (d : ℕ) (post : Cells)
      → Represents q (pre ++ (s, d) ∷ post)
      → has new (pre ++ (s, d) ∷ post) ≡ false
      → Links q
          (pre ++ (s, d) ∷ post)
          new
          (link_behind new s (first_ptr post))
          (contents pre ++ d ∷ ele ∷ contents post)
  link_behind-Links pre s d post rep out = record {
    cells = pre ++ (s, d) ∷ (new, ele) ∷ post;
    heap = splice q.heap s d new ele (first_ptr post);
    runs = behind_runs pre s d post rep out;
    chain = Chain-splice q.heap pre s d post new ele rep.chain fresh.ne_null out;
    is_spec = map-append _ pre _;
    frame = λ a beside.
        splice-other q.heap s d new ele (first_ptr post) a
          (has-splice a pre s d post new ele beside)
          (ground (arith, has-append a pre ((s, d) ∷ (new, ele) ∷ post)));
    grows = λ a.
        ground
          (arith, has-append a pre ((s, d) ∷ (new, ele) ∷ post), has-append a pre ((s, d) ∷ post));
  }
